-- ===== src/Status/Elements.antt =====
-- What the conversion of a raw status makes of each element.
use Prim.Native.String.{[] as end, ◌∷◌ as ◌then◌}
use pai.Prelude.{
  ℕ, ◌≡◌, ◌≢◌, String, true, false, Option, none, some, List, [], if◌then◌else◌, lookup, upsert,
  string_eq, join, starts_with, concat, lacks, arith, refl, ap, ◌∙◌, Bool-cases, Option-cases, inl,
  inr, split-concat, join-split, lookup-upsert,
}
use pai.Storage.Keys.{Key, number, text as name, keytransform, key_eq}
use pai.Status.{
  Value, atom, list, dict, Dict, nil, entry, find, put, merge_into, merge_value, dict_some,
}
use pai.Status.Merge.{merge_into-find, is_distinct, has_key}
use pai.Status.Conversion.{
  all_numbers, parse_raw_status, parse_elements, head_of, tail_of, or_type, split_root,
  merge_container, container_of, merge_at, merge_root, convert_from, convert_raw_status,
}

or_type_kept : (p t : String) → p ≢ "" → or_type p t ≡ p
or_type_kept p t n = elim (Bool-cases (string_eq.same p "")) [
  | inl e ↦ elim (n (string_eq.same_sound p "" e)) [ ]
  | inr e ↦ ground (arith, e)
]

-- A key of the root is the type of the elements, which has no underscore, and the property.
pub split_root-concat :
    (t p : String) → lacks 95 t ≡ true → p ≢ "" → split_root (concat t ("_" then p)) ≡ (t, p)
unfolding split_root
split_root-concat t p l n =
    let pieces = split-concat "_" t p l in
    ap (λ ps. (head_of ps, or_type (join "_" (tail_of ps)) (head_of ps))) pieces
    ∙ ap (λ q. (t, or_type q t)) (join-split "_" p)
    ∙ ap (λ q. (t, q)) (or_type_kept p t n)

module _ {A : Type 0} where
  -- the value of an element, as a dictionary of its property
  abbrev pub parsed : Key → Option (Value A) → Option (Value A)
  parsed prop_name none = none
  parsed prop_name (some v) = some (dict (parse_raw_status prop_name v))

  find-parse_elements :
      (prop_name : Key) (d : Dict A) (i : ℕ)
      → find (parse_elements prop_name d) (number i) ≡ parsed prop_name (find d (number i))
  unfolding find parse_elements
  find-parse_elements prop_name nil i = refl
  find-parse_elements prop_name (entry (number j) v d) i =
      ground (arith, find-parse_elements prop_name d i)
  find-parse_elements prop_name (entry (name s) v d) i =
      ground (arith, find-parse_elements prop_name d i)

  parse_elements_numbers :
      (prop_name : Key) (d : Dict A)
      → all_numbers d ≡ true
      → all_numbers (parse_elements prop_name d) ≡ true
  unfolding parse_elements
  parse_elements_numbers prop_name nil h = refl
  parse_elements_numbers prop_name (entry (number j) v d) h =
      ground (arith, h, parse_elements_numbers prop_name d)
  parse_elements_numbers prop_name (entry (name s) v d) h = ground (arith, h)

  has_key-parse_elements :
      (prop_name : Key) (d : Dict A) (j : ℕ)
      → has_key (parse_elements prop_name d) (number j) ≡ has_key d (number j)
  unfolding parse_elements
  has_key-parse_elements prop_name nil j = refl
  has_key-parse_elements prop_name (entry (number i) v d) j =
      ground (arith, has_key-parse_elements prop_name d j)
  has_key-parse_elements prop_name (entry (name s) v d) j =
      ground (arith, has_key-parse_elements prop_name d j)

  parse_elements_distinct :
      (prop_name : Key) (d : Dict A)
      → all_numbers d ≡ true
      → is_distinct d ≡ true
      → is_distinct (parse_elements prop_name d) ≡ true
  unfolding parse_elements
  parse_elements_distinct prop_name nil h k = refl
  parse_elements_distinct prop_name (entry (number j) v d) h k =
      ground
        (arith, h, k, parse_elements_distinct prop_name d, has_key-parse_elements prop_name d j)
  parse_elements_distinct prop_name (entry (name s) v d) h k = ground (arith, h)

  -- numbers are not transformed
  merge_container-merge_into :
      (c d : Dict A) → all_numbers d ≡ true → merge_container c d ≡ merge_into false c d
  unfolding merge_container merge_into keytransform
  merge_container-merge_into c nil h = refl
  merge_container-merge_into c (entry (number j) v d) h =
      elim (Option-cases (merge_value false (find c (number j)) v)) [
        | inl n ↦ ground (arith, n)
        | inr (w, n) ↦ ground (arith, n, h, merge_container-merge_into (put c (number j) w) d)
      ]
  merge_container-merge_into c (entry (name s) v d) h = ground (arith, h)

-- Where lists are not extended, merging never raises.
mutual
  unfolding merge_into merge_value

  pub merge_into_total :
      {A : Type 0} (d1 d2 : Dict A) → (d : Dict A) × (merge_into false d1 d2 ≡ some d)
  merge_into_total d1 nil = (d1, refl)
  merge_into_total d1 (entry k v d2) =
      let w = merge_value_total (find d1 k) v in
      let d = merge_into_total (put d1 k w.0) d2 in (d.0, ground (arith, w.1, d.1))

  pub merge_value_total :
      {A : Type 0} (old : Option (Value A)) (v : Value A)
      → (w : Value A) × (merge_value false old v ≡ some w)
  merge_value_total none v = (v, refl)
  merge_value_total (some (atom a)) v = (v, refl)
  merge_value_total (some (list xs)) (atom a) = (atom a, refl)
  merge_value_total (some (list xs)) (list ys) = (list ys, refl)
  merge_value_total (some (list xs)) (dict b) = (dict b, refl)
  merge_value_total (some (dict a)) (atom b) = (atom b, refl)
  merge_value_total (some (dict a)) (list ys) = (list ys, refl)
  merge_value_total (some (dict a)) (dict b) =
      let d = merge_into_total a b in (dict d.0, ap dict_some d.1)

-- the key of the root for a type and a property
abbrev pub root : String → String → Key
root t p = name (concat t ("_" then p))

visible : (t r : String) → lacks 95 t ≡ true → t ≢ "" → starts_with (concat t r) "_" ≡ false
unfolding starts_with concat
visible end r l n = elim (n refl) [ ]
visible (c then t) r l n = ground (arith, l)

module _ {A : Type 0} where
  container_of-upsert :
      (out : List (String × Dict A)) (t : String) (c : Dict A) → container_of (upsert out t c) t ≡ c
  container_of-upsert out t c = ground (arith, lookup-upsert out t c)

  merge_at_elements :
      (out : List (String × Dict A)) (t p : String) (d : Dict A) (i : ℕ) (v : Value A)
      → all_numbers d ≡ true
      → is_distinct d ≡ true
      → find d (number i) ≡ some v
      → (later : List (String × Dict A)) × (merge_at out (t, p) (dict d) ≡ some later)
        × (find (container_of later t) (number i)
            ≡ merge_value false
                (find (container_of out t) (number i))
                (dict (parse_raw_status (name p) v)))
  unfolding parse_raw_status
  merge_at_elements out t p d i v h k f =
      let c = container_of out t in
      let es = parse_elements (name p) d in
      let m = merge_into_total c es in
      let merged : merge_container c es ≡ some m.0 =
        merge_container-merge_into c es (parse_elements_numbers (name p) d h) ∙ m.1 in
      let found : find es (number i) ≡ some (dict (parse_raw_status (name p) v)) =
        find-parse_elements (name p) d i ∙ ap (parsed (name p)) f in
      (
        upsert out t m.0,
        ground (arith, merged, h),
        ap (λ c. find c (number i)) (container_of-upsert out t m.0)
            ∙ merge_into-find false c es m.0 (number i) (dict (parse_raw_status (name p) v)) m.1
                (parse_elements_distinct (name p) d h k) found,
      )

  merge_root-at :
      (out : List (String × Dict A)) (t p : String) (v : Value A)
      → lacks 95 t ≡ true
      → t ≢ ""
      → p ≢ ""
      → merge_root out (root t p) v ≡ merge_at out (t, p) v
  merge_root-at out t p v l n m =
      let s = split_root-concat t p l m in
      let seen = visible t ("_" then p) l n in
      ap (λ b. if b then some out else merge_at out (split_root (concat t ("_" then p))) v) seen
      ∙ ap (λ r. merge_at out r v) s

  merged_pair :
      (p q : String) (x y : A)
      → string_eq.same p q ≡ false
      → merge_value false
          (some (dict (entry (name p) (atom x) nil)))
          (dict (entry (name q) (atom y) nil))
        ≡ some (dict (entry (name p) (atom x) (entry (name q) (atom y) nil)))
  unfolding merge_value merge_into find put
  merged_pair p q x y n = ground (arith, n)

  -- Two properties of the same type of elements come together: an element that both dictionaries
  -- have is a dictionary of the two properties, and nothing is raised.
  pub convert_raw_status-find :
      (t p q : String) (d e : Dict A) (i : ℕ) (x y : A)
      → lacks 95 t ≡ true
      → t ≢ ""
      → p ≢ ""
      → q ≢ ""
      → string_eq.same p q ≡ false
      → all_numbers d ≡ true
      → all_numbers e ≡ true
      → is_distinct d ≡ true
      → is_distinct e ≡ true
      → find d (number i) ≡ some (atom x)
      → find e (number i) ≡ some (atom y)
      → (out : List (String × Dict A)) × (convert_raw_status
            (entry (root t p) (dict d) (entry (root t q) (dict e) nil))
          ≡ some out)
        × (find (container_of out t) (number i)
            ≡ some (dict (entry (name p) (atom x) (entry (name q) (atom y) nil))))
  unfolding convert_raw_status convert_from parse_raw_status find merge_value lookup
  convert_raw_status-find t p q d e i x y l tn pn qn pq dn en dd ed df ef =
      let one = merge_at_elements [] t p d i (atom x) dn dd df in
      let two = merge_at_elements one.0 t q e i (atom y) en ed ef in
      let first : merge_root [] (root t p) (dict d) ≡ some one.0 =
        merge_root-at [] t p (dict d) l tn pn ∙ one.1 in
      let second : merge_root one.0 (root t q) (dict e) ≡ some two.0 =
        merge_root-at one.0 t q (dict e) l tn qn ∙ two.1 in
      (
        two.0,
        ground (arith, first, second),
        two.2
            ∙ ap (λ o. merge_value false o (dict (entry (name q) (atom y) nil))) one.2
            ∙ merged_pair p q x y pq,
      )
