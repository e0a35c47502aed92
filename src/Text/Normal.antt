-- ===== src/Text/Normal.antt =====
-- The normal forms of common/string_utils.cpp: trimming and lower case.
use harmony_windows_bridge.Base.{
  ℕ, ◌≡◌, refl, ap, ◌∙◌, ◌⊎◌, inl, inr, true, false, List, [], ◌∷◌, ◌++◌, arith, Bool-cases, All,
  subst,
}
use harmony_windows_bridge.Text.{
  is_space, drop_spaces, to_lower, to_lower_ascii, drop_trailing_spaces, trim_ascii,
}

to_lower_idem : (c : ℕ) → to_lower (to_lower c) ≡ to_lower c
unfolding to_lower
to_lower_idem c = ground arith

pub to_lower_ascii_idem : (s : List ℕ) → to_lower_ascii (to_lower_ascii s) ≡ to_lower_ascii s
unfolding to_lower_ascii
to_lower_ascii_idem [] = refl
to_lower_ascii_idem (c ∷ s) = cc (to_lower_idem c, to_lower_ascii_idem s)

-- A text of spaces only.
abbrev pub AreSpaces : List ℕ → Type 0
AreSpaces = All (λ c. is_space c ≡ true)

-- The text begins with no space.
abbrev pub StartsFull : List ℕ → Type 0
StartsFull [] = Unit
StartsFull (c ∷ cs) = is_space c ≡ false

-- The text ends with no space.
abbrev pub EndsFull : List ℕ → Type 0
EndsFull [] = Unit
EndsFull (c ∷ []) = is_space c ≡ false
EndsFull (c ∷ d ∷ ds) = EndsFull (d ∷ ds)

drop_spaces_lem :
    (s : List ℕ)
    → (before : List ℕ) × AreSpaces before
      × (s ≡ before ++ drop_spaces s)
      × StartsFull (drop_spaces s)
unfolding drop_spaces
drop_spaces_lem [] = ([], tt, refl, tt)
drop_spaces_lem (c ∷ cs) = elim (Bool-cases (is_space c)) [
  | inl e ↦
      let (before, p, q, r) = drop_spaces_lem cs in rw e (c ∷ before, (e, p), ap (λ t. c ∷ t) q, r)
  | inr e ↦ rw e ([], tt, refl, e)
]

spaces_only :
    (c : ℕ) (cs : List ℕ)
    → is_space c ≡ true
    → drop_trailing_spaces cs ≡ []
    → drop_trailing_spaces (c ∷ cs) ≡ []
unfolding drop_trailing_spaces
spaces_only c cs e r = rw (r, e) refl

kept_last :
    (c : ℕ) (cs : List ℕ)
    → is_space c ≡ false
    → drop_trailing_spaces cs ≡ []
    → drop_trailing_spaces (c ∷ cs) ≡ c ∷ []
unfolding drop_trailing_spaces
kept_last c cs e r = rw (r, e) refl

kept :
    (c d : ℕ) (cs ds : List ℕ)
    → drop_trailing_spaces cs ≡ d ∷ ds
    → drop_trailing_spaces (c ∷ cs) ≡ c ∷ d ∷ ds
unfolding drop_trailing_spaces
kept c d cs ds r = rw r refl

List-cases : (s : List ℕ) → (s ≡ []) ⊎ ((d : ℕ) × (ds : List ℕ) × (s ≡ d ∷ ds))
List-cases [] = inl refl
List-cases (d ∷ ds) = inr (d, ds, refl)

drop_trailing_spaces_lem :
    (s : List ℕ)
    → (after : List ℕ) × AreSpaces after
      × (s ≡ drop_trailing_spaces s ++ after)
      × EndsFull (drop_trailing_spaces s)
unfolding drop_trailing_spaces
drop_trailing_spaces_lem [] = ([], tt, refl, tt)
drop_trailing_spaces_lem (c ∷ cs) =
    let (after, p, q, r) = drop_trailing_spaces_lem cs in
    elim (List-cases (drop_trailing_spaces cs)) [
      | inl e ↦ elim (Bool-cases (is_space c)) [
        | inl w ↦
            rw (spaces_only c cs w e)
              (c ∷ after, (w, p), ap (λ t. c ∷ t) (subst (λ t. cs ≡ t ++ after) e q), tt)
        | inr w ↦
            rw (kept_last c cs w e)
              (after, p, ap (λ t. c ∷ t) (subst (λ t. cs ≡ t ++ after) e q), w)
      ]
      | inr (d, ds, e) ↦ rw (kept c d cs ds e) (
        after,
        p,
        ap (λ t. c ∷ t) (subst (λ t. cs ≡ t ++ after) e q),
        subst (λ t. EndsFull t) e r,
      )
    ]

-- Cutting at the end leaves the start alone.
drop_trailing_spaces-StartsFull : (s : List ℕ) → StartsFull s → StartsFull (drop_trailing_spaces s)
unfolding drop_trailing_spaces
drop_trailing_spaces-StartsFull [] p = tt
drop_trailing_spaces-StartsFull (c ∷ cs) p = elim (List-cases (drop_trailing_spaces cs)) [
  | inl e ↦ rw (kept_last c cs p e) p
  | inr (d, ds, e) ↦ rw (kept c d cs ds e) p
]

-- The trimmed text is the text without spaces before and after it, and neither begins nor ends with one.
pub trim_ascii_lem :
    (s : List ℕ)
    → (before : List ℕ) × (after : List ℕ) × AreSpaces before
      × AreSpaces after
      × (s ≡ before ++ (trim_ascii s ++ after))
      × StartsFull (trim_ascii s)
      × EndsFull (trim_ascii s)
unfolding trim_ascii
trim_ascii_lem s =
    let (before, p, q, r) = drop_spaces_lem s in
    let (after, p', q', r') = drop_trailing_spaces_lem (drop_spaces s) in
    (
      before,
      after,
      p,
      p',
      q ∙ ap (λ t. before ++ t) q',
      drop_trailing_spaces-StartsFull (drop_spaces s) r,
      r',
    )

drop_spaces-StartsFull : (s : List ℕ) → StartsFull s → drop_spaces s ≡ s
unfolding drop_spaces
drop_spaces-StartsFull [] p = refl
drop_spaces-StartsFull (c ∷ cs) p = rw p refl

drop_trailing_spaces-EndsFull : (s : List ℕ) → EndsFull s → drop_trailing_spaces s ≡ s
unfolding drop_trailing_spaces
drop_trailing_spaces-EndsFull [] p = refl
drop_trailing_spaces-EndsFull (c ∷ []) p = rw p refl
drop_trailing_spaces-EndsFull (c ∷ d ∷ ds) p =
    kept c d (d ∷ ds) ds (drop_trailing_spaces-EndsFull (d ∷ ds) p)

pub trim_ascii_idem : (s : List ℕ) → trim_ascii (trim_ascii s) ≡ trim_ascii s
unfolding trim_ascii
trim_ascii_idem s =
    let (before, after, p, p', e, r, r') = trim_ascii_lem s in
    rw (drop_spaces-StartsFull (trim_ascii s) r) (drop_trailing_spaces-EndsFull (trim_ascii s) r')
