-- ===== src/Events/Matching.antt =====
-- What the filters of events let through.
use pai.Prelude.{
  ℕ, ◌≤◌, String, ◌≡◌, ◌↔◌, some, none, Bool-cases, inl, inr, ==_iff, refl, Bool, true, false, not,
  ◌&&◌, ◌||◌, List, [], ◌∷◌, ◌++◌, arith, if◌then◌else◌, string_eq,
}
use pai.Events.{
  live, codes, regexp, Event, TagQuery, Pattern, live_match, tags_of, contains, has_none,
  query_match, any_query, tag_match, fits, scan, regexp_match,
}

-- every query leaves out the tag
abbrev pub all_exclude : String → List TagQuery → Bool
all_exclude t [] = true
all_exclude t (q ∷ qs) = contains q.exclude t && all_exclude t qs

has_none-contains :
    (tags es : List String) (t : String)
    → contains tags t ≡ true
    → contains es t ≡ true
    → has_none tags es ≡ false
unfolding has_none contains
has_none-contains tags [] t h k = ground arith
has_none-contains tags (e ∷ es) t h k =
    ground (arith, has_none-contains tags es t h, string_eq.same_sound e t)

-- An event that bears a tag which every query leaves out is not let through, whatever else the
-- queries ask for.
pub tag_match-exclude :
    (min_level : ℕ) (queries : List TagQuery) (e : Event) (t : String)
    → contains (tags_of e) t ≡ true
    → all_exclude t queries ≡ true
    → tag_match min_level queries e ≡ false
unfolding tag_match any_query query_match
tag_match-exclude min_level [] e t h k = ground arith
tag_match-exclude min_level (q ∷ qs) e t h k =
    ground
      (arith, has_none-contains (tags_of e) q.exclude t h, tag_match-exclude min_level qs e t h)

any_query-append :
    (e : Event) (qs rs : List TagQuery) → any_query e (qs ++ rs) ≡ any_query e qs || any_query e rs
unfolding any_query
any_query-append e [] rs = refl
any_query-append e (q ∷ qs) rs = ground (arith, any_query-append e qs rs)

-- A filter with more queries lets through what a filter with the ones or with the others does, and
-- nothing else.
pub tag_match-append :
    (min_level : ℕ) (qs rs : List TagQuery) (e : Event)
    → tag_match min_level (qs ++ rs) e ≡ tag_match min_level qs e || tag_match min_level rs e
unfolding tag_match
tag_match-append min_level qs rs e = ground (arith, any_query-append e qs rs)

-- An entry of the lists fits an event.
pub data Fits (re_match : String → String → Bool) (e : Event) : Pattern → Type 0 where
  any_minor : (major : ℕ) → e.major ≡ major → Fits re_match e (codes major none)
  one_minor :
      (major minor : ℕ)
      → e.major ≡ major
      → e.minor ≡ minor
      → Fits re_match e (codes major (some minor))
  by_regexp : (r : String) → re_match r e.key ≡ true → Fits re_match e (regexp r)

-- One of the entries fits it.
pub data FitsAny (re_match : String → String → Bool) (e : Event) : List Pattern → Type 0 where
  fits_here : {p : Pattern} {ps : List Pattern} → Fits re_match e p → FitsAny re_match e (p ∷ ps)
  fits_later :
      {p : Pattern} {ps : List Pattern} → FitsAny re_match e ps → FitsAny re_match e (p ∷ ps)

module _ (re_match : String → String → Bool) where
  abbrev pub fits_any : Event → List Pattern → Bool
  fits_any e [] = false
  fits_any e (p ∷ ps) = fits re_match e p || fits_any e ps

  scan-fits_any :
      (e : Event) (value allow : Bool) (ps : List Pattern)
      → scan re_match e value allow ps ≡ (if fits_any e ps then value else allow)
  unfolding scan
  scan-fits_any e value allow [] = refl
  scan-fits_any e value allow (p ∷ ps) = ground (arith, scan-fits_any e value allow ps)

  fits-Fits : (e : Event) (p : Pattern) → fits re_match e p ≡ true → Fits re_match e p
  fits-Fits e (codes major none) h = any_minor major ((==_iff e.major major).0 (ground (arith, h)))
  fits-Fits e (codes major (some minor)) h =
      one_minor major minor ((==_iff e.major major).0 (ground (arith, h)))
        ((==_iff e.minor minor).0 (ground (arith, h)))
  fits-Fits e (regexp r) h = by_regexp r h

  Fits-fits : (e : Event) (p : Pattern) → Fits re_match e p → fits re_match e p ≡ true
  Fits-fits e (codes major none) (any_minor _ j) = ground (arith, (==_iff e.major major).1 j)
  Fits-fits e (codes major (some minor)) (one_minor _ _ j n) =
      ground (arith, (==_iff e.major major).1 j, (==_iff e.minor minor).1 n)
  Fits-fits e (regexp r) (by_regexp _ h) = h

  fits_any-FitsAny : (e : Event) (ps : List Pattern) → fits_any e ps ≡ true → FitsAny re_match e ps
  fits_any-FitsAny e [] h = ground (arith, h)
  fits_any-FitsAny e (p ∷ ps) h = elim (Bool-cases (fits re_match e p)) [
    | inl f ↦ fits_here (fits-Fits e p f)
    | inr f ↦ fits_later (fits_any-FitsAny e ps (ground (arith, h, f)))
  ]

  FitsAny-fits_any : (e : Event) (ps : List Pattern) → FitsAny re_match e ps → fits_any e ps ≡ true
  FitsAny-fits_any e [] f = elim f [ ]
  FitsAny-fits_any e (p ∷ ps) (fits_here f) = ground (arith, Fits-fits e p f)
  FitsAny-fits_any e (p ∷ ps) (fits_later f) = ground (arith, FitsAny-fits_any e ps f)

  live_match-live :
      (min_level : ℕ) (e : Event)
      → (live_match min_level e ≡ true) ↔ ((min_level ≤ e.level) × (e.kind ≡ live))
  live_match-live min_level e = ground arith

  regexp_match_flags :
      (min_level : ℕ) (events_allow events_ignore : List Pattern) (e : Event)
      → regexp_match re_match min_level events_allow events_ignore e
        ≡ (live_match min_level e && fits_any e events_allow && not (fits_any e events_ignore))
  unfolding regexp_match
  regexp_match_flags min_level events_allow events_ignore e = ground (
    arith,
    scan-fits_any e true false events_allow,
    scan-fits_any e false (scan re_match e true false events_allow) events_ignore,
  )

  -- An event is let through exactly when it is a live event of the level at least, an entry of the
  -- allow list fits it, and none of the ignore list does: to ignore goes before to allow. An entry
  -- of codes fits the major code with that minor code, or with any if there is none; an expression
  -- fits what it matches the key of.
  pub regexp_match-FitsAny :
      (min_level : ℕ) (events_allow events_ignore : List Pattern) (e : Event)
      → (regexp_match re_match min_level events_allow events_ignore e ≡ true) ↔ (
          (min_level ≤ e.level)
          × (e.kind ≡ live)
          × FitsAny re_match e events_allow
          × ¬ FitsAny re_match e events_ignore)
  regexp_match-FitsAny min_level events_allow events_ignore e =
      let r = regexp_match_flags min_level events_allow events_ignore e in
      let l = live_match-live min_level e in
      (
        λ h.
            let k = l.0 (ground (arith, r, h)) in
            (
              k.0,
              k.1,
              fits_any-FitsAny e events_allow (ground (arith, r, h)),
              λ f. ground (arith, r, h, FitsAny-fits_any e events_ignore f),
            ),
        λ (m, k, f, n). elim (Bool-cases (fits_any e events_ignore)) [
          | inl y ↦ ground (arith, n (fits_any-FitsAny e events_ignore y))
          | inr y ↦ ground (arith, r, l.1 (m, k), FitsAny-fits_any e events_allow f, y)
        ],
      )
