-- ===== src/Boy/Span/Lookup.antt =====
-- The searches of boy/commands/span_cmd.c find the first entry that matches.
use beastie_boy.Boy.Collectors.{InterfaceEntry}
use beastie_boy.Boy.Span.{find_by_index, find_by_name}
use beastie_boy.Prelude.{
  ℕ, Bool, true, false, some, List, [], ◌∷◌, ◌++◌, CString, str_eq, ◌==◌, Bool-cases, inl, inr,
  refl, ◌≡◌, ap, All,
}
use mathlib.Core.Path.{subst}

-- The first element of a list that passes a test.
pub record IsFirst {A : Type 0} (test : A → Bool) (xs : List A) (x : A) : Type 0 where
  pub before : List A
  pub after : List A
  pub place : xs ≡ before ++ (x ∷ after)
  pub passes : test x ≡ true
  pub none_before : All (λ y. test y ≡ false) before

IsFirst-cons :
    {A : Type 0} (test : A → Bool) (y x : A) (xs : List A)
    → test y ≡ false
    → IsFirst test xs x
    → IsFirst test (y ∷ xs) x
IsFirst-cons test y x xs e f = record {
  before = y ∷ f.before;
  after = f.after;
  place = ap (λ l. y ∷ l) f.place;
  passes = f.passes;
  none_before = (e, f.none_before);
}

IsFirst-head :
    {A : Type 0} (test : A → Bool) (x : A) (xs : List A) → test x ≡ true → IsFirst test (x ∷ xs) x
IsFirst-head test x xs e = record {
  before = [];
  after = xs;
  place = refl;
  passes = e;
  none_before = tt;
}

some_inj : {A : Type 0} {x y : A} → some x ≡ some y → x ≡ y
some_inj {A} {x} {y} e = cc

pub find_by_index-IsFirst :
    (entries : List InterfaceEntry) (index : ℕ) (e : InterfaceEntry)
    → find_by_index entries index ≡ some e
    → IsFirst (λ e. e.sw_if_index == index) entries e
unfolding find_by_index
find_by_index-IsFirst [] index e h = cc
find_by_index-IsFirst (d ∷ entries) index e h = elim (Bool-cases (d.sw_if_index == index)) [
  | inl p ↦
      let q : d ≡ e = some_inj (simp p at h) in
      subst (λ e. IsFirst (λ e. e.sw_if_index == index) (d ∷ entries) e) q
        (IsFirst-head (λ e. e.sw_if_index == index) d entries p)
  | inr p ↦
      IsFirst-cons (λ e. e.sw_if_index == index) d e entries p
        (find_by_index-IsFirst entries index e (simp p at h))
]

pub find_by_name-IsFirst :
    (entries : List InterfaceEntry) (name : CString) (e : InterfaceEntry)
    → find_by_name entries name ≡ some e
    → IsFirst (λ e. str_eq e.interface_name name) entries e
unfolding find_by_name
find_by_name-IsFirst [] name e h = cc
find_by_name-IsFirst (d ∷ entries) name e h = elim (Bool-cases (str_eq d.interface_name name)) [
  | inl p ↦
      let q : d ≡ e = some_inj (simp p at h) in
      subst (λ e. IsFirst (λ e. str_eq e.interface_name name) (d ∷ entries) e) q
        (IsFirst-head (λ e. str_eq e.interface_name name) d entries p)
  | inr p ↦
      IsFirst-cons (λ e. str_eq e.interface_name name) d e entries p
        (find_by_name-IsFirst entries name e (simp p at h))
]
