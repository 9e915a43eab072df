-- ===== src/Raft/Cluster/Apart.antt =====
-- Lists of the names of nodes that share no name.
use redon.Prelude.{◌≡◌, true, false, Bytes, List, [], ◌∷◌, arith, bytes_eq_iff, bytes_eq_refl, All}
use redon.Raft.{contains}
use redon.Raft.Majority.{Within}

pub Within-all :
    (l m : List Bytes) → ((q : Bytes) → contains q l ≡ true → contains q m ≡ true) → Within l m
unfolding contains
Within-all [] m f = tt
Within-all (q ∷ l) m f =
    (f q (ground (arith, bytes_eq_refl q)), Within-all l m (λ x e. f x (ground (arith, e))))

pub apart-cons :
    (q : Bytes) (v rest : List Bytes)
    → contains q rest ≡ false
    → All (λ x. contains x v ≡ false) rest
    → All (λ x. contains x (q ∷ v) ≡ false) rest
unfolding contains
apart-cons q v [] e h = tt
apart-cons q v (x ∷ rest) e h = (
  ground (arith, h.0, e, bytes_eq_iff q x, bytes_eq_iff x q),
  apart-cons q v rest (ground (arith, e)) h.1,
)

pub not_own :
    (p : Bytes) (l : List Bytes) → contains p l ≡ false → All (λ q. contains q (p ∷ []) ≡ false) l
unfolding contains
not_own p [] e = tt
not_own p (q ∷ l) e =
    (ground (arith, bytes_eq_iff p q, bytes_eq_iff q p, e), not_own p l (ground (arith, e)))
