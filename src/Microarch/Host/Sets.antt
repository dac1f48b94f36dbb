-- ===== src/Microarch/Host/Sets.antt =====
-- The sets of features that `collectARM64Requirements` fills and `hostSupports` empties.
use microfat.Base.{
  ◌≡◌, ◌↔◌, ◌∙◌, refl, sym, ap, Bool, true, false, ◌&&◌, ◌||◌, not, List, [], ◌∷◌, arith,
  Bool-cases, inl, inr,
}
use microfat.Text.{Bytes, bytes_eq}
use microfat.Text.Laws.{eq_of_bytes_eq, bytes_eq_refl, bytes_eq-cases}
use microfat.Microarch.Host.{insert_all, delete, delete_all, is_empty_set}
use microfat.Microarch.Policy.{in_set}

or_swap : (a b c : Bool) → ((a || b) || c) ≡ (b || (a || c))
or_swap a b c = ground arith

pub in_set-insert_all :
    (fs set : List Bytes) (f : Bytes) → in_set (insert_all fs set) f ≡ (in_set fs f || in_set set f)
unfolding insert_all in_set
in_set-insert_all [] set f = refl
in_set-insert_all (g ∷ fs) set f =
    in_set-insert_all fs (g ∷ set) f ∙ sym (or_swap (bytes_eq g f) (in_set fs f) (in_set set f))

-- Equal names are in the same sets.
in_set-delete :
    (g : Bytes) (set : List Bytes) (f : Bytes)
    → in_set (delete g set) f ≡ (not (bytes_eq g f) && in_set set f)
unfolding delete in_set
in_set-delete g [] f = ground arith
in_set-delete g (h ∷ set) f =
    let rest = in_set-delete g set f in
    elim (Bool-cases (bytes_eq g h)) [
      | inl e ↦
          let same : bytes_eq g f ≡ bytes_eq h f = ap (λ x. bytes_eq x f) (eq_of_bytes_eq g h e) in
          rw (e, rest, same) (ground arith)
      | inr e ↦ elim (bytes_eq-cases h f) [
        | inl same ↦
            let other : bytes_eq g f ≡ false = rw (← same) e in rw (e, rest, other) (ground arith)
        | inr distinct ↦ rw (e, rest, distinct) (ground arith)
      ]
    ]

pub in_set-delete_all :
    (fs set : List Bytes) (f : Bytes)
    → in_set (delete_all fs set) f ≡ (not (in_set fs f) && in_set set f)
unfolding delete_all in_set
in_set-delete_all [] set f = refl
in_set-delete_all (g ∷ fs) set f =
    let rest = in_set-delete_all fs (delete g set) f in
    let one = in_set-delete g set f in ground (arith, rest, one)

-- A set is empty when nothing is in it.
pub is_empty_set_iff :
    (set : List Bytes) → (is_empty_set set ≡ true) ↔ ((f : Bytes) → in_set set f ≡ false)
unfolding is_empty_set in_set
is_empty_set_iff [] = (λ _ f. refl, λ _. refl)
is_empty_set_iff (g ∷ set) =
    (λ e. cc, λ h. let k = h g in let r = bytes_eq_refl g in ground (arith, k, r))
