-- ===== src/Plan/Pigeon.antt =====
-- A list without repetitions is no longer than a list that has all its elements.
use job_slayer.Base.{
  suc, ◌≤◌, String, ◌≡◌, true, false, List, [], ◌∷◌, contains, is_unique, length, str_eq, eq_iff,
  arith, Bool-cases, inl, inr,
}
use job_slayer.Plan.Graph.{remove}
use job_slayer.Plan.Order.{contains-cons_self, contains-cons}

length-remove :
    (x : String) (ys : List String) → contains x ys ≡ true → suc (length (remove x ys)) ≡ length ys
length-remove x [] h = cc
length-remove x (y ∷ ys) h = ground (arith, length-remove x ys)

contains-remove :
    (x z : String) (ys : List String)
    → contains z ys ≡ true
    → str_eq x z ≡ false
    → contains z (remove x ys) ≡ true
contains-remove x z [] h other = cc
contains-remove x z (y ∷ ys) h other =
    ground (arith, contains-remove x z ys, eq_iff y x, eq_iff y z, eq_iff x z)

pub length-le-of_subset :
    (xs ys : List String)
    → is_unique xs ≡ true
    → ((x : String) → contains x xs ≡ true → contains x ys ≡ true)
    → length xs ≤ length ys
length-le-of_subset [] ys unique inside = omega arith
length-le-of_subset (x ∷ xs) ys unique inside =
    let fresh : contains x xs ≡ false = ground arith in
    let rest : length xs ≤ length (remove x ys) =
      length-le-of_subset xs (remove x ys) (ground arith) (λ z h.
        contains-remove x z ys (inside z (contains-cons x z xs h)) (elim (Bool-cases (str_eq x z)) [
          | inr other ↦ other
          | inl same ↦ cc (fresh, h, (eq_iff x z).0 same)
        ])) in
    omega (arith, rest, length-remove x ys (inside x (contains-cons_self x xs)))
