-- ===== src/Compose/Merge/Names.antt =====
-- The provenance of the settings, and the required names, which accumulate.
use Prim.Native.String.{◌++◌ as str_append}
use devrepro_doctor.Prelude.{
  contains, ◌≡◌, refl, ◌∙◌, String, Bool, true, false, ◌||◌, List, [], ◌∷◌, ◌++◌, str_eq,
  if◌then◌else◌, if_cases, any, map, All, arith, Bool-cases, inl, inr, sort,
}
use devrepro_doctor.Prelude.Sorting.{Pairwise, Pairwise-snoc, All-map, All-sort}
use devrepro_doctor.Prelude.Members.{contains-not, contains-same, contains-snoc}
use devrepro_doctor.Compose.Merge.{
  Policy, Provenance, Identity, Value, add_names, merge_env_names, merge_layers, nothing_merged,
  provenance_of, comes_before, merge, show_value, is_owned, MergeState, same,
}
use devrepro_doctor.Compose.Merge.Nearest.{
  mentions, labels, is_owned-find, same_refl, Agrees, merge_layers-Agrees,
}

-- An entry is about a setting that some layer mentions: it has the text of the first one's value, its
-- layer is the first and the layers it overrides are the others.
pub record IsAttributed (show_versions : List String → String) (parsed : List (String × Policy))
    (p : Provenance) : Type 0 where
  pub identity : Identity
  pub label : String
  pub first : Value
  pub others : List (String × Value)
  pub mentioned : mentions identity parsed ≡ (label, first) ∷ others
  pub entry : p ≡ record {
    key = str_append identity.0 (str_append "." identity.1);
    value = show_value show_versions first;
    layer = label;
    overrides = labels others;
  }

owners-owned :
    (m : List (Identity × String))
    → All
        (λ i. any (λ (e : Identity × String). same e.0 i) m ≡ true)
        (map (λ (e : Identity × String). e.0) m)
owners-owned [] = tt
owners-owned (e ∷ m) = (
  ground (arith, same_refl e.0),
  All-map (λ i h. ground arith) (map (λ (e : Identity × String). e.0) m) (owners-owned m),
)

All-of_map :
    {A B : Type 0} (P : B → Type 0) (f : A → B) (xs : List A)
    → All (λ x. P (f x)) xs
    → All P (map f xs)
All-of_map P f [] hs = tt
All-of_map P f (x ∷ xs) hs = (hs.0, All-of_map P f xs hs.1)

module _ (show_versions : List String → String) where
  attributed :
      (parsed : List (String × Policy)) (i : Identity) (st : MergeState)
      (ms : List (String × Value))
      → is_owned i st ≡ true
      → mentions i parsed ≡ ms
      → Agrees i st ms
      → IsAttributed show_versions parsed (provenance_of show_versions st i)
  attributed parsed i st [] owned e h = absurd (cc (owned, is_owned-find i st, h.1))
  attributed parsed i st ((label, first) ∷ others) owned e h = record {
    identity = i;
    label = label;
    first = first;
    others = others;
    mentioned = e;
    entry = rw (h.0, h.1, h.2) refl;
  }

  -- Every entry of the provenance is right: its setting is mentioned by some layer, it gives the value
  -- and the label of the first one that mentions it, and as overridden the labels of all the others.
  pub merge-IsAttributed :
      (parsed : List (String × Policy))
      → All (IsAttributed show_versions parsed) (merge show_versions parsed).1
  unfolding merge
  merge-IsAttributed [] = tt
  merge-IsAttributed (l ∷ ls) =
      let parsed = l ∷ ls in
      let st = merge_layers nothing_merged parsed in
      let owners = map (λ (e : Identity × String). e.0) st.owner in
      All-of_map (IsAttributed show_versions parsed) (provenance_of show_versions st)
        (sort comes_before owners)
        (All-map
          (λ i owned.
            attributed parsed i st (mentions i parsed) owned refl (merge_layers-Agrees i parsed))
          (sort comes_before owners)
          (All-sort comes_before (λ i. is_owned i st ≡ true) owners (owners-owned st.owner)))

contains-add_names :
    (x : String) (more names : List String)
    → contains x (add_names names more) ≡ (contains x names || contains x more)
contains-add_names x [] names = ground arith
contains-add_names x (y ∷ more) names =
    let next = if contains y names then names else names ++ y ∷ [] in
    contains-add_names x more next ∙ ground (arith, contains-next)
  where
    contains-next :
        contains x (if contains y names then names else names ++ y ∷ [])
        ≡ (contains x names || str_eq y x)
    contains-next =
        if_cases (λ next. contains x next ≡ (contains x names || str_eq y x)) (contains y names)
          (λ old. elim (Bool-cases (str_eq y x)) [
            | inl e ↦ ground (arith, contains-same y x names e old)
            | inr e ↦ ground arith
          ])
          (λ new. contains-snoc x y names)

abbrev Unrepeated : List String → Type 0
Unrepeated = Pairwise (λ a b. str_eq a b ≡ false)

add_names-Unrepeated :
    (more names : List String) → Unrepeated names → Unrepeated (add_names names more)
add_names-Unrepeated [] names h = h
add_names-Unrepeated (y ∷ more) names h =
    add_names-Unrepeated more (if contains y names then names else names ++ y ∷ []) (
      if_cases Unrepeated (contains y names) (λ old. h)
        (λ new. Pairwise-snoc (λ a b. str_eq a b ≡ false) names y h (contains-not y names new)))

abbrev pub requires : String → List (String × Policy) → Bool
requires x parsed = any (λ (l : String × Policy). contains x l.1.required_env_names) parsed

merge_env_names_lem :
    (x : String) (parsed : List (String × Policy)) (names : List String)
    → Unrepeated names
    → (contains x (merge_env_names names parsed) ≡ (contains x names || requires x parsed))
      × Unrepeated (merge_env_names names parsed)
unfolding merge_env_names
merge_env_names_lem x [] names h = (ground arith, h)
merge_env_names_lem x ((label, policy) ∷ parsed) names h =
    let next = add_names names policy.required_env_names in
    let (same_names, unrepeated) =
      merge_env_names_lem x parsed next (add_names-Unrepeated policy.required_env_names names h) in
    (ground (arith, same_names, contains-add_names x policy.required_env_names names), unrepeated)

-- The required names of the merged policy are those that some layer requires, however far, and none
-- stands there twice.
pub merge-requires :
    (show_versions : List String → String) (x : String) (first : String × Policy)
    (parsed : List (String × Policy))
    → (let merged = (merge show_versions (first ∷ parsed)).0 in
        (contains x merged.required_env_names ≡ requires x (first ∷ parsed))
        × Pairwise (λ a b. str_eq a b ≡ false) merged.required_env_names)
unfolding merge
merge-requires show_versions x first parsed = merge_env_names_lem x (first ∷ parsed) [] tt
