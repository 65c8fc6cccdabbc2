-- ===== src/FileInfo/Print.antt =====
-- `FileInfo::toString`.
use p2p_distributed_file_sha.Prelude.{[], ◌∷◌, ◌++◌, map}
use p2p_distributed_file_sha.Text.{Text, codes}
use p2p_distributed_file_sha.Address.{Address}
use p2p_distributed_file_sha.Number.{show_nat, show_int}
use p2p_distributed_file_sha.Split.{join}
use p2p_distributed_file_sha.FileInfo.{FileInfo}

-- `addr.ip.empty() ? "0.0.0.0" : addr.ip`
unfoldable pub show_ip : Text → Text
show_ip [] = codes "0.0.0.0"
show_ip (c ∷ ip) = c ∷ ip

unfoldable pub show_seeder : Text × Address → Text
unfolding show_ip
show_seeder (user, addr) = user ++ b':' ∷ (show_ip addr.ip ++ b':' ∷ show_int addr.port)

unfoldable pub show_path : Text × Text → Text
show_path (user, file) = user ++ b':' ∷ file

unfoldable pub to_string : FileInfo → Text
to_string f =
    f.name
    ++ b'|'
      ∷ (f.path
          ++ b'|'
            ∷ (f.owner
                ++ b'|'
                  ∷ (f.group
                      ++ b'|'
                        ∷ (show_nat f.size
                            ++ b'|'
                              ∷ (show_nat f.piece_size
                                  ++ b'|'
                                    ∷ (f.full_sha
                                        ++ b'|'
                                          ∷ (join b',' f.piece_sha
                                              ++ b'|'
                                                ∷ (join b';' (map show_seeder f.seeder_users)
                                                    ++ b'|'
                                                      ∷ join b';'
                                                          (map show_path f.user_file_map)))))))))
