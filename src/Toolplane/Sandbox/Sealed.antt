-- ===== src/Toolplane/Sandbox/Sealed.antt =====
-- Why the sandbox's unit has its protections.
use cube_advisor_agent.Base.{
  ◌&&◌, ◌||◌, Bool, inl, inr, All-append, has_prefix, itoa, ◌/◌, Bool-cases, In-All, ℕ, ◌≡◌, refl,
  true, false, ◌++◌, [], ◌∷◌, List, map, arith, Bytes, text, bytes_eq, bytes_beq, ◌==◌,
  if◌then◌else◌, bytes_beq_iff, All, In, In-map, All-of_In, Any-append_left, Any-append_right,
}
use cube_advisor_agent.Base.Substrings.{has_prefix-StartsWith}
use cube_advisor_agent.Toolplane.Tools.{second}
use cube_advisor_agent.Toolplane.Sandbox.{
  Node, sandbox_props, hidden_paths, fixed_props, varying_props, hide, broker_props, call_props,
  search_path, sandbox_hidden,
}
use cube_advisor_agent.Toolplane.Sandbox.Protections.{
  protections, secrets, keyring_patterns, hiding, IsMild, IsSealed,
}

holds_word : Bytes → List Bytes → Bool
holds_word p [] = false
holds_word p (q ∷ qs) = bytes_beq q p || holds_word p qs

holds_word-In : (p : Bytes) (qs : List Bytes) → holds_word p qs ≡ true → In p qs
unfolding holds_word
holds_word-In p [] h = cc
holds_word-In p (q ∷ qs) h = ground (arith, bytes_beq_iff q p, holds_word-In p qs)

holds_all : List Bytes → List Bytes → Bool
unfolding holds_word
holds_all [] qs = true
holds_all (p ∷ ps) qs = holds_word p qs && holds_all ps qs

holds_all-In : (ps qs : List Bytes) → holds_all ps qs ≡ true → All (λ p. In p qs) ps
unfolding holds_all
holds_all-In [] qs h = tt
holds_all-In (p ∷ ps) qs h = ground (arith, holds_word-In p qs, holds_all-In ps qs)

is_mild : Bytes → Bool
unfolding holds_word
is_mild q = holds_word q protections || has_prefix (text "Environment=") q

is_mild-IsMild : (q : Bytes) → is_mild q ≡ true → IsMild q
unfolding is_mild
is_mild-IsMild q h = elim (Bool-cases (holds_word q protections)) [
  | inl e ↦ inl (holds_word-In q protections e)
  | inr e ↦
      inr (inr (inr (inr (inl (has_prefix-StartsWith (text "Environment=") q (ground arith))))))
]

every_mild : List Bytes → Bool
unfolding is_mild
every_mild [] = true
every_mild (q ∷ qs) = is_mild q && every_mild qs

every_mild-IsMild : (qs : List Bytes) → every_mild qs ≡ true → All IsMild qs
unfolding every_mild
every_mild-IsMild [] h = tt
every_mild-IsMild (q ∷ qs) h = ground (arith, is_mild-IsMild q, every_mild-IsMild qs)

protections-fixed : All (λ p. In p fixed_props) protections
unfolding holds_all text bytes_beq
protections-fixed = holds_all-In protections fixed_props refl

secrets-hidden : All (λ p. In p sandbox_hidden) secrets
unfolding holds_all text bytes_beq
secrets-hidden = holds_all-In secrets sandbox_hidden refl

-- Every fixed property is a protection or sets the environment.
fixed-IsMild : All IsMild fixed_props
unfolding every_mild text bytes_beq has_prefix
fixed-IsMild = every_mild-IsMild fixed_props refl

All-if :
    (b : Bool) (xs ys : List Bytes)
    → All IsMild xs
    → All IsMild ys
    → All IsMild (if b then xs else ys)
All-if true xs ys h k = h
All-if false xs ys h k = k

All-map-IsMild :
    (f : Bytes → Bytes) → ((x : Bytes) → IsMild (f x)) → (xs : List Bytes) → All IsMild (map f xs)
All-map-IsMild f h [] = tt
All-map-IsMild f h (x ∷ xs) = (h x, All-map-IsMild f h xs)

-- A setting of one of the other kinds, by its place among them.
lasting : (v : Bytes) → IsMild (text "RuntimeMaxSec=" ++ v)
lasting v = inr (inl (v, refl))

scratch : (v : Bytes) → IsMild (text "TemporaryFileSystem=" ++ v)
scratch v = inr (inr (inl (v, refl)))

bound : (v : Bytes) → IsMild (text "BindReadOnlyPaths=" ++ v)
bound v = inr (inr (inr (inl (v, refl))))

surroundings : (q v : Bytes) → q ≡ text "Environment=" ++ v → IsMild q
surroundings q v e = inr (inr (inr (inr (inl (v, e)))))

out_of_sight : (q v : Bytes) → q ≡ text "InaccessiblePaths=" ++ v → IsMild q
out_of_sight q v e = inr (inr (inr (inr (inr (inl (v, e))))))

varying-IsMild :
    (node : Node) (timeout : ℕ) (call_id : Bytes) → All IsMild (varying_props node timeout call_id)
unfolding varying_props broker_props call_props text
varying-IsMild node timeout call_id = (
  lasting (itoa (timeout / second)),
  (
    scratch (text "/run"),
    (
      scratch (text "/var/support"),
      (
        bound (text "-/run/log"),
        All-append IsMild (broker_props node.broker_dir) _
            (All-if (node.broker_dir == []) [] _ tt (bound node.broker_dir, tt))
            (
              surroundings _ (text "PATH=" ++ search_path node.broker_dir) refl,
              All-if (call_id == []) [] _ tt
                  (surroundings _ (text "ADVISOR_CALL_ID=" ++ call_id) refl, tt),
            ),
      ),
    ),
  ),
)

module _ (node : Node) (timeout : ℕ) (call_id : Bytes) where
  fixed_In : (p : Bytes) → In p fixed_props → In p (sandbox_props node timeout call_id)
  unfolding sandbox_props
  fixed_In p m =
      Any-append_left (λ y. y ≡ p) fixed_props
        (varying_props node timeout call_id ++ map hide (hidden_paths node)) m

  hidden_In :
      (p : Bytes) → In p (hidden_paths node) → In (hide p) (sandbox_props node timeout call_id)
  unfolding sandbox_props
  hidden_In p m =
      Any-append_right (λ y. y ≡ hide p) fixed_props
        (varying_props node timeout call_id ++ map hide (hidden_paths node))
        (Any-append_right (λ y. y ≡ hide p) (varying_props node timeout call_id)
          (map hide (hidden_paths node)) (In-map hide p (hidden_paths node) m))

  abbrev props_here : List Bytes
  props_here = sandbox_props node timeout call_id

  protections-In : All (λ p. In p props_here) protections
  protections-In =
      All-of_In _ protections
        (λ p m. fixed_In p (In-All (λ x. In x fixed_props) p protections protections-fixed m))

  secrets-In : All (λ p. In (hiding p) props_here) secrets
  unfolding hidden_paths
  secrets-In = All-of_In _ secrets (λ p m. hidden_In p (
      Any-append_left (λ y. y ≡ p) sandbox_hidden _
        (In-All (λ x. In x sandbox_hidden) p secrets secrets-hidden m)))

  keyrings-In : All (λ g. All (λ p. In (hiding p) props_here) (node.glob g)) keyring_patterns
  unfolding hidden_paths
  keyrings-In =
      let one = node.glob (text "/var/lib/ceph/*/*keyring") in
      let two = node.glob (text "/var/lib/ceph/*/*/*keyring") in
      (
        All-of_In _ one (λ p m. hidden_In p (
            Any-append_right (λ y. y ≡ p) sandbox_hidden _ (Any-append_left (λ y. y ≡ p) one _ m))),
        (
          All-of_In _ two (λ p m. hidden_In p (
              Any-append_right (λ y. y ≡ p) sandbox_hidden _
                (Any-append_right (λ y. y ≡ p) one _ (Any-append_left (λ y. y ≡ p) two _ m)))),
          tt,
        ),
      )

  limited-In : In (text "RuntimeMaxSec=" ++ itoa (timeout / second)) props_here
  unfolding sandbox_props varying_props
  limited-In =
      Any-append_right (λ y. y ≡ text "RuntimeMaxSec=" ++ itoa (timeout / second)) fixed_props
        (varying_props node timeout call_id ++ map hide (hidden_paths node)) (inl refl)

  props-IsMild : All IsMild props_here
  unfolding sandbox_props text
  props-IsMild =
      All-append IsMild fixed_props
        (varying_props node timeout call_id ++ map hide (hidden_paths node)) fixed-IsMild
        (All-append IsMild (varying_props node timeout call_id) (map hide (hidden_paths node))
          (varying-IsMild node timeout call_id)
          (All-map-IsMild hide (λ p. out_of_sight (hide p) (b'-' ∷ p) refl) (hidden_paths node)))

  pub sandbox_props-IsSealed : IsSealed node timeout props_here
  sandbox_props-IsSealed = record {
    protected = protections-In;
    limited = limited-In;
    hidden = secrets-In;
    keyrings = keyrings-In;
    others = props-IsMild;
  }
