-- ===== src/TextSet.antt =====
-- `std::unordered_set<string>`, as a list.
use p2p_distributed_file_sha.Prelude.{◌≡◌, ◌||◌, ◌&&◌, not, List, [], ◌∷◌, arith, if◌then◌else◌}
use p2p_distributed_file_sha.Text.{Text, ◌==◌, ==_iff, mem}

abbrev pub TextSet : Type 0
TextSet = List Text

-- s.insert(a)
unfoldable pub insert : Text → TextSet → TextSet
insert a s = if mem a s then s else a ∷ s

-- s.erase(a)
unfoldable pub erase : Text → TextSet → TextSet
erase a [] = []
erase a (b ∷ s) = let rest = erase a s in if b == a then rest else b ∷ rest

pub mem-insert : (a b : Text) (s : TextSet) → mem b (insert a s) ≡ (a == b || mem b s)
unfolding mem insert
mem-insert a b s = ground (arith, ==_iff a b)

pub mem-erase : (a b : Text) (s : TextSet) → mem b (erase a s) ≡ (not (a == b) && mem b s)
unfolding mem erase
mem-erase a b [] = ground arith
mem-erase a b (c ∷ s) = ground (arith, mem-erase a b s, ==_iff a b, ==_iff c a, ==_iff c b)
