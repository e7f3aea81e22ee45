-- ===== src/Grants/Prefixes.antt =====
-- Texts that begin like another, and what may follow the part that they share.
use Prim.Native.Char.{Char}
use ciacola.Base.{
  String, ◌==◌, ◌≡◌, refl, sym, subst, Bool, true, false, ◌||◌, Option, none, some, arith, inl, inr,
  ◌⊎◌, if◌then◌else◌, eq_iff, ap,
}
use ciacola.Recovery.Orphans.{starts_with}
use ciacola.Grants.{strip_prefix, strip_suffix, rest_is}

unfoldable pub joined : String → String → String
joined String.[] s = s
joined (String.◌∷◌ c p) s = String.◌∷◌ c (joined p s)

pub rest_is-starts_with :
    (x p s : String) → rest_is (starts_with x) p s ≡ starts_with (joined p x) s
unfolding rest_is strip_prefix starts_with joined
rest_is-starts_with x String.[] s = refl
rest_is-starts_with x (String.◌∷◌ c p) String.[] = refl
rest_is-starts_with x (String.◌∷◌ c p) (String.◌∷◌ d s) = ground (arith, rest_is-starts_with x p s)

starts_with_refl : (s : String) → starts_with s s ≡ true
unfolding starts_with
starts_with_refl String.[] = refl
starts_with_refl (String.◌∷◌ c s) = ground (arith, starts_with_refl s)

pub starts_with_trans :
    (u v w : String) → starts_with u v ≡ true → starts_with v w ≡ true → starts_with u w ≡ true
unfolding starts_with
starts_with_trans String.[] v w h k = refl
starts_with_trans (String.◌∷◌ c u) String.[] w h k = cc
starts_with_trans (String.◌∷◌ c u) (String.◌∷◌ d v) String.[] h k = cc
starts_with_trans (String.◌∷◌ c u) (String.◌∷◌ d v) (String.◌∷◌ e w) h k =
    ground (arith, starts_with_trans u v w)

pub starts_with-joined :
    (u v x : String) → starts_with u v ≡ true → starts_with u (joined v x) ≡ true
unfolding starts_with joined
starts_with-joined String.[] v x h = refl
starts_with-joined (String.◌∷◌ c u) String.[] x h = cc
starts_with-joined (String.◌∷◌ c u) (String.◌∷◌ d v) x h = ground (arith, starts_with-joined u v x)

module _ (x : String) where
  strip_suffix_step :
      (b : Bool) (c : Char) (s q : String) (o : Option String)
      → (b ≡ true → String.◌∷◌ c s ≡ x)
      → ((r : String) → o ≡ some r → s ≡ joined r x)
      → (if b then some String.[] else elim o [ none ↦ none | some r ↦ some (String.◌∷◌ c r) ])
        ≡ some q
      → String.◌∷◌ c s ≡ joined q x
  unfolding joined
  strip_suffix_step true c s q o k ih h =
      let e : String.[] ≡ q = cc in subst (λ r. String.◌∷◌ c s ≡ joined r x) e (k refl)
  strip_suffix_step false c s q none k ih h = cc
  strip_suffix_step false c s q (some r) k ih h =
      let e : String.◌∷◌ c r ≡ q = cc in
      subst (λ r. String.◌∷◌ c s ≡ joined r x) e (ap (String.◌∷◌ c) (ih r refl))

  pub strip_suffix_lem : (s q : String) → strip_suffix x s ≡ some q → s ≡ joined q x
  unfolding strip_suffix
  strip_suffix_lem String.[] q h = cc
  strip_suffix_lem (String.◌∷◌ c s) q h =
      strip_suffix_step (String.◌∷◌ c s == x) c s q (strip_suffix x s) (eq_iff (String.◌∷◌ c s) x).0
        (strip_suffix_lem s) h

-- the marks that may follow a covering prefix
pub data Mark : String → Type 0 where
  blank : Mark " "
  colon : Mark ":"
  opening : Mark "("
  underscores : Mark "__"

-- a text that is a prefix of the other, whatever is put behind both
unfoldable pub Same : String → String → Type 0
Same b q = (y : String) → starts_with (joined b y) (joined q y) ≡ true

never_empty : (b x : String) → Mark x → starts_with (joined b x) String.[] ≡ false
unfolding starts_with joined
never_empty String.[] x blank = refl
never_empty String.[] x colon = refl
never_empty String.[] x opening = refl
never_empty String.[] x underscores = refl
never_empty (String.◌∷◌ c b) x m = refl

late-Mark : (x : String) → Mark x → (starts_with x "*)" ≡ false) × (starts_with x ")" ≡ false)
unfolding starts_with
late-Mark x blank = (refl, refl)
late-Mark x colon = (refl, refl)
late-Mark x opening = (refl, refl)
late-Mark x underscores = (refl, refl)

short : (b x : String) → Mark x → (c : Char) → starts_with (joined (String.◌∷◌ c b) x) ":*)" ≡ false
unfolding starts_with joined
short String.[] x m c = ground (arith, (late-Mark x m).0)
short (String.◌∷◌ d String.[]) x m c = ground (arith, (late-Mark x m).1)
short (String.◌∷◌ d (String.◌∷◌ e b)) x m c = ground (arith, never_empty b x m)

first-Mark :
    (q x : String)
    → Mark x
    → starts_with x (joined q ":*)") ≡ true
    → (starts_with x q ≡ true) ⊎ ((x ≡ ":") × (q ≡ String.[]))
unfolding starts_with joined
first-Mark String.[] x blank h = cc
first-Mark String.[] x colon h = inr (refl, refl)
first-Mark String.[] x opening h = cc
first-Mark String.[] x underscores h = cc
first-Mark (String.◌∷◌ d q) x blank h = inl h
first-Mark (String.◌∷◌ d q) x colon h = inl h
first-Mark (String.◌∷◌ d q) x opening h = inl h
first-Mark (String.◌∷◌ d String.[]) x underscores h = inl h
first-Mark (String.◌∷◌ d (String.◌∷◌ e q)) x underscores h = inl h

pub inside :
    (b q x : String)
    → Mark x
    → starts_with (joined b x) (joined q ":*)") ≡ true
    → (starts_with (joined b x) q ≡ true) ⊎ ((x ≡ ":") × Same b q)
unfolding starts_with joined Same
inside String.[] q x m h = elim (first-Mark q x m h) [
  | inl e ↦ inl e
  | inr (e, f) ↦
      inr (e, λ y. subst (λ r. starts_with y (joined r y) ≡ true) (sym f) (starts_with_refl y))
]
inside (String.◌∷◌ c b) String.[] x m h = inl (ground (arith, short b x m c))
inside (String.◌∷◌ c b) (String.◌∷◌ d q) x m h = elim (inside b q x m (ground arith)) [
  | inl e ↦ inl (ground arith)
  | inr (e, f) ↦ inr (e, λ y. ground (arith, f y))
]

pub rest_is_either :
    (x y p s : String)
    → rest_is (λ rest. starts_with x rest || starts_with y rest) p s
      ≡ (starts_with (joined p x) s || starts_with (joined p y) s)
unfolding rest_is strip_prefix starts_with joined
rest_is_either x y String.[] s = refl
rest_is_either x y (String.◌∷◌ c p) String.[] = refl
rest_is_either x y (String.◌∷◌ c p) (String.◌∷◌ d s) = ground (arith, rest_is_either x y p s)
