-- ===== src/Config/Fingerprint/Order.antt =====
-- The sort by ID forgets the order of the proxies.
use mathlib.Core.List.{Permᴰ}
use mathlib.Core.Path.{◌∙◌, subst}
use faultline.Common.{
  true, false, List, [], ◌∷◌, Text, nat_eq, ◌≡◌, ◌≢◌, refl, sym, arith, All, Bool-cases, text_eq,
  inl, inr,
}
use faultline.Config.Model.{Proxy}
use faultline.Config.Fingerprint.{text_lt, insert, sort}

text_lt_asym : (s t : Text) → text_lt s t ≡ true → text_lt t s ≡ false
unfolding text_lt
text_lt_asym [] [] h = refl
text_lt_asym [] (b ∷ t) h = refl
text_lt_asym (a ∷ s) [] h = cc
text_lt_asym (a ∷ s) (b ∷ t) h = ground (arith, text_lt_asym s t)

text_lt_total : (s t : Text) → text_lt s t ≡ false → text_lt t s ≡ false → s ≡ t
unfolding text_lt
text_lt_total [] [] h k = refl
text_lt_total [] (b ∷ t) h k = cc
text_lt_total (a ∷ s) [] h k = cc
text_lt_total (a ∷ s) (b ∷ t) h k = ground (arith, text_lt_total s t)

text_lt_trans : (s t u : Text) → text_lt s t ≡ true → text_lt t u ≡ true → text_lt s u ≡ true
unfolding text_lt
text_lt_trans [] [] u h k = cc
text_lt_trans [] (b ∷ t) [] h k = cc
text_lt_trans [] (b ∷ t) (c ∷ u) h k = refl
text_lt_trans (a ∷ s) [] u h k = cc
text_lt_trans (a ∷ s) (b ∷ t) [] h k = cc
text_lt_trans (a ∷ s) (b ∷ t) (c ∷ u) h k = ground (arith, text_lt_trans s t u)

ordered_comm :
    (p q : Proxy) (l : List Proxy)
    → text_lt p.id q.id ≡ true
    → insert p (insert q l) ≡ insert q (insert p l)
unfolding insert
ordered_comm p q [] h = ground (arith, h, text_lt_asym p.id q.id)
ordered_comm p q (x ∷ xs) h =
    ground (arith, h, text_lt_asym p.id q.id, text_lt_trans x.id p.id q.id, ordered_comm p q xs h)

insert_comm :
    (p q : Proxy) (l : List Proxy) → p.id ≢ q.id → insert p (insert q l) ≡ insert q (insert p l)
insert_comm p q l h = elim (Bool-cases (text_lt p.id q.id)) [
  | inl below ↦ ordered_comm p q l below
  | inr not_below ↦ elim (Bool-cases (text_lt q.id p.id)) [
    | inl above ↦ sym (ordered_comm q p l above)
    | inr not_above ↦ absurd (h (text_lt_total p.id q.id not_below not_above))
  ]
]

abbrev pub HasDistinctIds : List Proxy → Type 0
HasDistinctIds [] = Unit
HasDistinctIds (p ∷ ps) = All (λ q. p.id ≢ q.id) ps × HasDistinctIds ps

All-Perm : (P : Proxy → Type 0) {ps qs : List Proxy} → Permᴰ ps qs → All P ps → All P qs
All-Perm P Permᴰ.nil h = tt
All-Perm P (Permᴰ.cons e d) h = (subst P e h.0, All-Perm P d h.1)
All-Perm P (Permᴰ.swap e e') h = (subst P e' h.1.0, (subst P e h.0, h.1.1))
All-Perm P (Permᴰ.trans d d') h = All-Perm P d' (All-Perm P d h)

abbrev Differs : List Proxy → Proxy → Type 0
Differs ps p = All (λ q. p.id ≢ q.id) ps

distinct_swap :
    (a b : Proxy) (l : List Proxy) → HasDistinctIds (a ∷ b ∷ l) → HasDistinctIds (b ∷ a ∷ l)
distinct_swap a b l h = (((λ e. h.0.0 (sym e)), h.1.0), (h.0.1, h.1.1))

-- Proxies that only change places are the same once sorted.
pub sort-Perm :
    {ps qs : List Proxy} → Permᴰ ps qs → HasDistinctIds ps → (sort ps ≡ sort qs) × HasDistinctIds qs
unfolding sort
sort-Perm Permᴰ.nil h = (refl, tt)
sort-Perm (Permᴰ.cons {b = b} {l₂ = l'} e d) h =
    let (same, distinct) = sort-Perm d h.1 in
    (rw (e, same) refl, (subst (Differs l') e (All-Perm _ d h.0), distinct))
sort-Perm (Permᴰ.swap {a = a} {b = b} {b' = b'} {l = l} e e') h = (
  rw (sym e, sym e') (insert_comm a b (sort l) h.0.0),
  subst (λ x. HasDistinctIds (x ∷ b' ∷ l)) e'
      (subst (λ y. HasDistinctIds (b ∷ y ∷ l)) e (distinct_swap a b l h)),
)
sort-Perm (Permᴰ.trans d d') h =
    let (same, distinct) = sort-Perm d h in
    let (same', distinct') = sort-Perm d' distinct in (same ∙ same', distinct')
