-- ===== src/Broker/OpenStack/Paths.antt =====
-- What CheckOpenStackPath and checkSegments let pass.
use cube_advisor_agent.Base.{
  ℕ, ◌≤◌, ◌≡◌, ◌≢◌, ◌↔◌, ◌⊎◌, inl, inr, refl, sym, true, false, not, ◌||◌, ◌++◌, [], ◌∷◌, List,
  arith, Bytes, text, bytes_beq_iff, bytes_eq, nat_eq, ◌==◌, Result, ok, err, ◌>>=◌, fail_if,
  bind-eq-ok, fail_if-eq-ok, All, all_sound, length, split, to_lower, Bool-cases, Result-cases, ap,
  ◌∙◌,
}
use mathlib.Core.Path.{subst}
use cube_advisor_agent.Base.Substrings.{Holds, contains_iff}
use cube_advisor_agent.Broker.OpenStack.{
  is_service, is_lower, is_digit, is_segment_char, inside, path_from, is_path, denied_services,
  denied_segments, is_among, trim_char, check_segment, check_all, check_segments, cut_query, NetUrl,
  check_openstack_path, PathError, bad_service, bad_path, denied_service, bad_query,
}

is_among_iff : (w : Bytes) (ds : List Bytes) → (is_among w ds ≡ false) ↔ All (λ d. d ≢ w) ds
unfolding is_among
is_among_iff w [] = (λ _. tt, λ _. refl)
is_among_iff w (d ∷ ds) = ground (arith, is_among_iff w ds, bytes_beq_iff d w)

-- A segment that is more than dots, does not climb and is not denied in any case of its letters.
pub record IsClean (seg : Bytes) : Type 0 where
  pub visible : trim_char b'.' seg ≢ []
  pub stays : ¬ Holds (text "..") seg
  pub allowed : All (λ d. d ≢ to_lower seg) denied_segments

check_segment_iff : (seg : Bytes) → (check_segment seg ≡ ok tt) ↔ IsClean seg
unfolding check_segment
check_segment_iff seg = ground (
  arith,
  bytes_beq_iff (trim_char b'.' seg) [],
  contains_iff (text "..") seg,
  is_among_iff (to_lower seg) denied_segments,
)

check_all_iff : (segs : List Bytes) → (check_all segs ≡ ok tt) ↔ All IsClean segs
unfolding check_all
check_all_iff [] = (λ _. tt, λ _. refl)
check_all_iff (seg ∷ segs) = (
  λ h.
      let (u, first, others) = bind-eq-ok (check_segment seg) (λ _. check_all segs) h in
      ((check_segment_iff seg).0 first, (check_all_iff segs).0 others),
  λ (clean, others).
      rw ((check_segment_iff seg).1 clean, check_all) ((check_all_iff segs).1 others),
)

-- Every segment between slashes is clean.
abbrev pub AllClean : Bytes → Type 0
AllClean p = All IsClean (split b'/' (trim_char b'/' p))

pub check_segments_iff : (p : Bytes) → (check_segments p ≡ ok tt) ↔ AllClean p
unfolding check_segments
check_segments_iff p = check_all_iff (split b'/' (trim_char b'/' p))

abbrev pub IsSegment : Bytes → Type 0
IsSegment seg = (seg ≢ []) × All (λ c. is_segment_char c ≡ true) seg

-- What `osPath` describes: segments behind slashes, and perhaps a slash at the end.
pub data IsSlashed : Bytes → Type 0 where
  last : (p seg : Bytes) → IsSegment seg → p ≡ b'/' ∷ seg → IsSlashed p
  closed : (p seg : Bytes) → IsSegment seg → p ≡ b'/' ∷ (seg ++ b'/' ∷ []) → IsSlashed p
  next :
      (p seg rest : Bytes) → IsSegment seg → IsSlashed rest → p ≡ b'/' ∷ (seg ++ rest) → IsSlashed p

-- The rest of a segment, and what follows it.
data Inside : Bytes → Type 0 where
  ends : (s : Bytes) → All (λ c. is_segment_char c ≡ true) s → Inside s
  closes :
      (s seg : Bytes) → All (λ c. is_segment_char c ≡ true) seg → s ≡ seg ++ b'/' ∷ [] → Inside s
  follows :
      (s seg rest : Bytes)
      → All (λ c. is_segment_char c ≡ true) seg
      → IsSlashed rest
      → s ≡ seg ++ rest
      → Inside s

grow : (c : ℕ) (s : Bytes) → is_segment_char c ≡ true → Inside s → Inside (c ∷ s)
grow c s h (ends _ a) = ends (c ∷ s) (h, a)
grow c s h (closes _ seg a e) = closes (c ∷ s) (c ∷ seg) (h, a) (ap (λ (t : Bytes). c ∷ t) e)
grow c s h (follows _ seg rest a more e) =
    follows (c ∷ s) (c ∷ seg) rest (h, a) more (ap (λ (t : Bytes). c ∷ t) e)

slashed : (c : ℕ) (s : Bytes) → is_segment_char c ≡ true → Inside s → IsSlashed (b'/' ∷ c ∷ s)
slashed c s h (ends _ a) = last _ (c ∷ s) (λ e. cc, (h, a)) refl
slashed c s h (closes _ seg a e) =
    closed _ (c ∷ seg) (λ e. cc, (h, a)) (ap (λ (t : Bytes). b'/' ∷ c ∷ t) e)
slashed c s h (follows _ seg rest a more e) =
    next _ (c ∷ seg) rest (λ e. cc, (h, a)) more (ap (λ (t : Bytes). b'/' ∷ c ∷ t) e)

inside_sound : (s : Bytes) → path_from inside s ≡ true → Inside s
unfolding path_from
inside_sound [] h = ends [] tt
inside_sound (c ∷ []) h = elim (Bool-cases (c == b'/')) [
  | inl e ↦ closes _ [] tt (ground arith)
  | inr e ↦ ends _ (ground arith, tt)
]
inside_sound (c ∷ d ∷ s) h = elim (Bool-cases (c == b'/')) [
  | inl e ↦
      follows _ [] (b'/' ∷ d ∷ s) tt (slashed d s (ground arith) (inside_sound s (ground arith)))
        (ground arith)
  | inr e ↦ grow c (d ∷ s) (ground arith) (inside_sound (d ∷ s) (ground arith))
]

is_path-IsSlashed : (p : Bytes) → is_path p ≡ true → IsSlashed p
unfolding is_path path_from
is_path-IsSlashed [] h = cc
is_path-IsSlashed (c ∷ []) h = ground arith
is_path-IsSlashed (c ∷ d ∷ s) h =
    let e : b'/' ≡ c = ground arith in
    subst (λ (a : ℕ). IsSlashed (a ∷ d ∷ s)) e
      (slashed d s (ground arith) (inside_sound s (ground arith)))

-- A service's name is a lower-case letter and up to 39 lower-case letters, digits and dashes.
pub record IsService (service : Bytes) : Type 0 where
  pub first : ℕ
  pub others : Bytes
  pub split : service ≡ first ∷ others
  pub letter : (b'a' ≤ first) × (first ≤ b'z')
  pub short : length others ≤ 39
  pub plain : All (λ c. ((b'a' ≤ c) × (c ≤ b'z')) ⊎ ((b'0' ≤ c) × (c ≤ b'9')) ⊎ (c ≡ b'-')) others

is_service-IsService : (s : Bytes) → is_service s ≡ true → IsService s
unfolding is_service
is_service-IsService [] h = cc
is_service-IsService (c ∷ s) h = record {
  first = c;
  others = s;
  split = refl;
  letter = ground arith;
  short = ground arith;
  plain =
      all_sound _ (λ d. is_lower d || (is_digit d || d == b'-')) (λ d e. ground arith) s
        (ground arith);
}

-- The request names a service that is served and a plain path; the path is what stands before the
-- first "?", and the query what net/url makes of the rest.
pub record IsServable (net : NetUrl) (service target p q : Bytes) : Type 0 where
  pub named : IsService service
  pub open_service : All (λ d. d ≢ service) denied_services
  pub path : p ≡ (cut_query target).0
  pub slashed : IsSlashed p
  pub clean : AllClean p
  pub query : net.reencode (cut_query target).1 ≡ ok q

module _ (net : NetUrl) (service target : Bytes) where
  abbrev before_query : Bytes
  before_query = (cut_query target).0

  abbrev encoded : Result Bytes Bytes → Result PathError (Bytes × Bytes)
  encoded (err why) = err (bad_query why)
  encoded (ok e) = ok (before_query, e)

  abbrev raw : Result Bytes Bytes
  raw = net.reencode (cut_query target).1

  -- CheckOpenStackPath, from its last test backwards.
  abbrev from_segments : Result PathError (Bytes × Bytes)
  from_segments = check_segments before_query >>= (λ _. encoded raw)

  abbrev from_path : Result PathError (Bytes × Bytes)
  from_path = fail_if (not (is_path before_query)) bad_path >>= (λ _. from_segments)

  abbrev from_denied : Result PathError (Bytes × Bytes)
  from_denied =
      fail_if (is_among service denied_services) (denied_service service) >>= (λ _. from_path)

  check_unfolded :
      check_openstack_path net service target
      ≡ (fail_if (not (is_service service)) bad_service >>= (λ _. from_denied))
  unfolding check_openstack_path
  check_unfolded = elim (Result-cases raw) [ inl (a, e) ↦ rw (e) refl | inr (a, e) ↦ rw (e) refl ]

  encoded-eq-ok :
      (w : Result Bytes Bytes) (p q : Bytes)
      → encoded w ≡ ok (p, q)
      → (p ≡ before_query) × (w ≡ ok q)
  encoded-eq-ok (ok e) p q h = (cc, cc)
  encoded-eq-ok (err why) p q h = cc

  -- A path that CheckOpenStackPath returns is that before the query, of segments that are plain, not
  -- denied and do not climb, for a well-named service that is not denied; its query is encoded again.
  pub check_openstack_path-IsServable :
      (p q : Bytes)
      → check_openstack_path net service target ≡ ok (p, q)
      → IsServable net service target p q
  check_openstack_path-IsServable p q h =
      let (_, named, h1) =
        bind-eq-ok (fail_if (not (is_service service)) bad_service) (λ _. from_denied)
          (sym check_unfolded ∙ h) in
      let (_, allowed, h2) =
        bind-eq-ok (fail_if (is_among service denied_services) (denied_service service))
          (λ _. from_path) h1 in
      let (_, plain, h3) =
        bind-eq-ok (fail_if (not (is_path before_query)) bad_path) (λ _. from_segments) h2 in
      let (_, clean, h4) = bind-eq-ok (check_segments before_query) (λ _. encoded raw) h3 in
      let (path, query) = encoded-eq-ok raw p q h4 in
      record {
        named = is_service-IsService service (ground (arith, fail_if-eq-ok _ _ named));
        open_service = (is_among_iff service denied_services).0 (fail_if-eq-ok _ _ allowed);
        path = path;
        slashed =
            subst IsSlashed (sym path)
              (is_path-IsSlashed before_query (ground (arith, fail_if-eq-ok _ _ plain)));
        clean = subst AllClean (sym path) ((check_segments_iff before_query).0 clean);
        query = query;
      }
