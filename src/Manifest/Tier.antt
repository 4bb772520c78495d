-- ===== src/Manifest/Tier.antt =====
-- `TierClassifier` of crates/vrift-manifest/src/tier.rs.
use velo_rift.Manifest.Types.{AssetTier, tier1_immutable, tier2_mutable, slash, starts_with_slash}
use mathlib.Core.Path.{ap₂}
use velo_rift.Prelude.{
  zero, suc, ◌<◌, length, get_or, ==_refl, ℕ, ◌≡◌, ◌↔◌, refl, sym, ap, ◌∙◌, List, [], ◌∷◌, ◌++◌,
  Bool, true, false, ◌&&◌, ◌||◌, ◌==◌, if◌then◌else◌, arith, Bool-cases, inl, inr,
}

pub record TierClassifier : Type 0 where
  pub tier1_patterns : List (List ℕ)
  pub tier2_patterns : List (List ℕ)

unfoldable pub is_prefix : List ℕ → List ℕ → Bool
is_prefix [] text = true
is_prefix (a ∷ pattern) [] = false
is_prefix (a ∷ pattern) (b ∷ text) = a == b && is_prefix pattern text

-- `str::contains`
unfoldable pub has_substring : List ℕ → List ℕ → Bool
unfolding is_prefix
has_substring [] pattern = is_prefix pattern []
has_substring (a ∷ text) pattern = is_prefix pattern (a ∷ text) || has_substring text pattern

-- whether a loop of `classify` over the patterns finds one
unfoldable pub matches_any : List (List ℕ) → List ℕ → Bool
matches_any [] text = false
matches_any (p ∷ patterns) text = has_substring text p || matches_any patterns text

abbrev pub rooted : List ℕ → List ℕ
rooted path = if starts_with_slash path then path else slash ∷ path

unfoldable pub classify : TierClassifier → List ℕ → AssetTier
classify c path =
    let normalized = rooted path in
    if matches_any c.tier1_patterns normalized
    then tier1_immutable
    else if matches_any c.tier2_patterns normalized
    then tier2_mutable
    else tier2_mutable

abbrev pub is_tier1 : AssetTier → Bool
is_tier1 tier1_immutable = true
is_tier1 tier2_mutable = false

unfoldable pub is_immutable_candidate : TierClassifier → List ℕ → Bool
is_immutable_candidate c path = is_tier1 (classify c path)

abbrev pub Contains : List ℕ → List ℕ → Type 0
Contains text p = (before after : List ℕ) × (text ≡ before ++ (p ++ after))

-- one of the patterns stands somewhere in the text
abbrev pub OccursIn : List (List ℕ) → List ℕ → Type 0
OccursIn patterns text = (i : ℕ) × (i < length patterns) × Contains text (get_or patterns i [])

is_prefix_sound :
    (p text : List ℕ) → is_prefix p text ≡ true → (after : List ℕ) × (text ≡ p ++ after)
unfolding is_prefix
is_prefix_sound [] text h = (text, refl)
is_prefix_sound (a ∷ p) [] h = absurd (ground arith)
is_prefix_sound (a ∷ p) (b ∷ text) h =
    let (after, e) = is_prefix_sound p text (ground arith) in
    let same : a ≡ b = ground arith in (after, ap₂ ◌∷◌ (sym same) e)

is_prefix_append : (p after : List ℕ) → is_prefix p (p ++ after) ≡ true
unfolding is_prefix
is_prefix_append [] after = refl
is_prefix_append (a ∷ p) after = rw (==_refl a, is_prefix_append p after) refl

has_substring_sound : (text p : List ℕ) → has_substring text p ≡ true → Contains text p
unfolding has_substring
has_substring_sound [] p h = let (after, e) = is_prefix_sound p [] h in ([], after, e)
has_substring_sound (a ∷ text) p h = elim (Bool-cases (is_prefix p (a ∷ text))) [
  | inl t ↦ let (after, e) = is_prefix_sound p (a ∷ text) t in ([], after, e)
  | inr f ↦
      let (before, after, e) = has_substring_sound text p (ground arith) in
      (a ∷ before, after, ap (λ l. a ∷ l) e)
]

has_substring_append : (before p after : List ℕ) → has_substring (before ++ (p ++ after)) p ≡ true
unfolding has_substring
has_substring_append [] p after = starts (p ++ after) p (is_prefix_append p after)
  where
    starts : (text p : List ℕ) → is_prefix p text ≡ true → has_substring text p ≡ true
    starts [] p h = unfold has_substring in h
    starts (a ∷ text) p h = unfold has_substring in rw h refl
has_substring_append (a ∷ before) p after =
    let h = has_substring_append before p after in
    rw h (elim (Bool-cases (is_prefix p (a ∷ (before ++ (p ++ after))))) [
      | inl t ↦ rw t refl
      | inr f ↦ rw f refl
    ])

matches_any_sound :
    (patterns : List (List ℕ)) (text : List ℕ)
    → matches_any patterns text ≡ true
    → OccursIn patterns text
unfolding matches_any
matches_any_sound [] text h = absurd (ground arith)
matches_any_sound (p ∷ patterns) text h = elim (Bool-cases (has_substring text p)) [
  | inl t ↦ (0, omega arith, has_substring_sound text p t)
  | inr f ↦
      let (i, lt, c) = matches_any_sound patterns text (ground arith) in (suc i, omega arith, c)
]

matches_any_complete :
    (patterns : List (List ℕ)) (text : List ℕ) (i : ℕ)
    → i < length patterns
    → Contains text (get_or patterns i [])
    → matches_any patterns text ≡ true
unfolding matches_any
matches_any_complete [] text i lt c = absurd (omega arith)
matches_any_complete (p ∷ patterns) text zero lt (before, after, e) =
    let h : has_substring text p ≡ true =
      ap (λ t. has_substring t p) e ∙ has_substring_append before p after in
    rw h refl
matches_any_complete (p ∷ patterns) text (suc i) lt c =
    let h = matches_any_complete patterns text i (omega arith) c in
    rw h (elim (Bool-cases (has_substring text p)) [ inl t ↦ rw t refl | inr f ↦ rw f refl ])

-- A path is classed as immutable exactly if one of the first tier's patterns stands somewhere in
-- the path written from the root, whatever the second tier's patterns are.
pub classify_iff :
    (c : TierClassifier) (path : List ℕ)
    → (classify c path ≡ tier1_immutable) ↔ OccursIn c.tier1_patterns (rooted path)
unfolding classify
classify_iff c path = (
  λ h. matches_any_sound c.tier1_patterns (rooted path) (ground arith),
  λ (i, lt, o). rw (matches_any_complete c.tier1_patterns (rooted path) i lt o) refl,
)
