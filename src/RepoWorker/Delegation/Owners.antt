-- ===== src/RepoWorker/Delegation/Owners.antt =====
-- Sorting and removing neighbours that are equal leave one text exactly where there was only that one.
use ciacola.Base.{
  String, ◌==◌, ◌≡◌, refl, sym, ◌∙◌, true, ◌||◌, List, [], ◌∷◌, contains, arith, eq_iff, ==_self,
}
use ciacola.RepoWorker.Delegation.Preflight.{insert_text, sort, dedup, is_only}

contains-insert_text :
    (x : String) (ys : List String) (z : String)
    → contains (insert_text x ys) z ≡ (x == z || contains ys z)
unfolding insert_text contains
contains-insert_text x [] z = refl
contains-insert_text x (y ∷ ys) z = ground (arith, contains-insert_text x ys z)

contains-sort : (xs : List String) (z : String) → contains (sort xs) z ≡ contains xs z
unfolding sort contains
contains-sort [] z = refl
contains-sort (x ∷ xs) z = ground (arith, contains-insert_text x (sort xs) z, contains-sort xs z)

contains-dedup : (xs : List String) (z : String) → contains (dedup xs) z ≡ contains xs z
unfolding dedup contains
contains-dedup [] z = refl
contains-dedup (x ∷ []) z = refl
contains-dedup (x ∷ y ∷ ys) z = ground (arith, contains-dedup (y ∷ ys) z, eq_iff x y)

-- a list with one text in it, however often
abbrev pub Only : String → List String → Type 0
Only owner xs = (z : String) → contains xs z ≡ (owner == z)

is_only-Only : (owner : String) (xs : List String) → is_only owner xs ≡ true → Only owner xs
unfolding contains
is_only-Only owner [] h z = cc
is_only-Only owner (x ∷ []) h z = ground (arith, eq_iff x owner)
is_only-Only owner (x ∷ y ∷ ys) h z = cc

Only-head : (owner x : String) (xs : List String) → Only owner (x ∷ xs) → owner ≡ x
unfolding contains
Only-head owner x xs h = let e = h x in let self = ==_self x in ground (arith, eq_iff owner x)

Only-tail : (owner x y : String) (ys : List String) → Only owner (x ∷ y ∷ ys) → Only owner (y ∷ ys)
unfolding contains
Only-tail owner x y ys h z =
    let e = h y in
    let self = ==_self y in
    let same : owner ≡ y = ground (arith, eq_iff owner y) in
    let f = h z in ground (arith, eq_iff owner z, eq_iff y z, eq_iff x z)

dedup_one :
    (owner : String) (x : String) (xs : List String)
    → Only owner (x ∷ xs)
    → dedup (x ∷ xs) ≡ owner ∷ []
unfolding dedup contains
dedup_one owner x [] h = rw (sym (Only-head owner x [] h)) refl
dedup_one owner x (y ∷ ys) h =
    let here = Only-head owner x (y ∷ ys) h in
    let next = Only-head owner y ys (Only-tail owner x y ys h) in
    let rest = dedup_one owner y ys (Only-tail owner x y ys h) in ground (arith, eq_iff x y)

is_only-dedup :
    (owner : String) (xs : List String) → Only owner xs → is_only owner (dedup xs) ≡ true
unfolding contains
is_only-dedup owner [] h = let e = h owner in let self = ==_self owner in cc
is_only-dedup owner (x ∷ xs) h = rw (dedup_one owner x xs h) (==_self owner)

pub sorted-Only :
    (owner : String) (xs : List String)
    → (is_only owner (dedup (sort xs)) ≡ true → Only owner xs)
      × (Only owner xs → is_only owner (dedup (sort xs)) ≡ true)
sorted-Only owner xs = (
  λ h z.
      sym (contains-dedup (sort xs) z ∙ contains-sort xs z)
      ∙ is_only-Only owner (dedup (sort xs)) h z,
  λ h. is_only-dedup owner (sort xs) (λ z. contains-sort xs z ∙ h z),
)
