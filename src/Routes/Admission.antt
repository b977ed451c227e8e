-- ===== src/Routes/Admission.antt =====
-- What a registration does, and how many registrations a code admits.
use public_intelligence.Prelude.{
  ℕ, ◌+◌, ◌≡◌, ◌≤◌, refl, sym, ap, ◌∙◌, String, true, false, Option, none, some, List, [], ◌∷◌,
  is_truthy, if◌then◌else◌, arith, Bool-cases, inl, inr,
}
use public_intelligence.Prelude.Dict.{contains, insert}
use public_intelligence.Prelude.Except.{Except, done, failed}
use public_intelligence.Prelude.Float.{Floats}
use public_intelligence.Models.{Node}
use public_intelligence.Store.{Codec}
use public_intelligence.Registry.{Registry, ok, err, already_registered, set_node_token, register}
use public_intelligence.Matchmaker.{text_or}
use public_intelligence.Invites.{InviteRegistry, enforcing}
use public_intelligence.Invites.Limit.{remaining}
use public_intelligence.Routes.{
  HttpError, AppState, RegisterHeaders, is_refused, redeemed, register_node,
}
use public_intelligence.Routes.Codes.{hash_is, redeemed-remaining}

-- One attempt to register.
pub record Attempt (F : Type 0) : Type 0 where
  pub headers : RegisterHeaders
  pub node : Node F

module _ {F : Type 0} (hash : String → String) where
  -- 1 if an attempt that ended so was admitted under a code with this hash.
  abbrev pub counted : String → Attempt F → Except HttpError (Node F) → ℕ
  counted h attempt (failed e) = 0
  counted h attempt (done node) = if hash_is hash h attempt.headers.x_invite_code then 1 else 0

module _ {F P : Type 0} where
  set_node_token-nodes :
      (node_id : String) (token : Option String) (r : Registry F P)
      → (set_node_token node_id token r).nodes ≡ r.nodes
  unfolding set_node_token
  set_node_token-nodes node_id none r = refl
  set_node_token-nodes node_id (some token) r = elim (Bool-cases (is_truthy token)) [
    | inl e ↦ ground arith
    | inr e ↦ ground arith
  ]

module _ {F P : Type 0} (hash : String → String) where
  module _ ⦃fl : Floats F⦄ ⦃c : Codec F P⦄ where
    register-known :
        (node : Node F) (r : Registry F P)
        → contains node.node_id r.nodes ≡ true
        → register node r ≡ (err already_registered, r)
    unfolding register
    register-known node r k = rw (register, k)

    register-new :
        (node : Node F) (r : Registry F P)
        → contains node.node_id r.nodes ≡ false
        → ((register node r).0 ≡ ok tt)
          × ((register node r).1.nodes ≡ insert node.node_id node r.nodes)
    unfolding register
    register-new node r k = ground arith

    register_node-refused :
        (headers : RegisterHeaders) (node : Node F) (s : AppState F P)
        → is_refused hash s.invites headers.x_invite_code ≡ true
        → register_node hash headers node s ≡ (failed HttpError.forbidden_403, s)
    unfolding register_node
    register_node-refused headers node s h = rw (register_node, h)

    register_node-known :
        (headers : RegisterHeaders) (node : Node F) (s : AppState F P)
        → is_refused hash s.invites headers.x_invite_code ≡ false
        → contains node.node_id s.registry.nodes ≡ true
        → let (result, s') = register_node hash headers node s in
          (result ≡ failed HttpError.conflict_409)
          × (s'.invites ≡ s.invites)
          × (s'.registry.nodes ≡ s.registry.nodes)
    unfolding register_node
    register_node-known headers node s h k =
        let token = text_or headers.x_node_credential headers.x_network_auth_token in
        let r = set_node_token node.node_id token s.registry in
        let same = set_node_token-nodes node.node_id token s.registry in
        let known : contains node.node_id r.nodes ≡ true = rw (same, k) in
        let refused = register-known node r known in
        rw (register_node, h, ap (λ x. x.0) refused)
          (refl, refl, ap (λ x. x.1.nodes) refused ∙ same)

    register_node-new :
        (headers : RegisterHeaders) (node : Node F) (s : AppState F P)
        → is_refused hash s.invites headers.x_invite_code ≡ false
        → contains node.node_id s.registry.nodes ≡ false
        → let (result, s') = register_node hash headers node s in
          (result ≡ done node)
          × (s'.invites ≡ redeemed hash s.invites headers.x_invite_code)
          × (s'.registry.nodes ≡ insert node.node_id node s.registry.nodes)
    unfolding register_node
    register_node-new headers node s h k =
        let token = text_or headers.x_node_credential headers.x_network_auth_token in
        let r = set_node_token node.node_id token s.registry in
        let same = set_node_token-nodes node.node_id token s.registry in
        let unknown : contains node.node_id r.nodes ≡ false = rw (same, k) in
        let (returned, kept) = register-new node r unknown in
        rw (register_node, h, returned) (refl, refl, kept ∙ ap (insert node.node_id node) same)

    -- How many of the attempts register a node under a code with this hash.
    unfoldable pub registrations : String → List (Attempt F) → AppState F P → ℕ
    registrations h [] s = 0
    registrations h (attempt ∷ attempts) s =
        let (result, s') = register_node hash attempt.headers attempt.node s in
        counted hash h attempt result + registrations h attempts s'

    -- The invites after an attempt still enforce, and what it was admitted under is used up.
    record StepsDown (h : String) (attempt : Attempt F) (s : AppState F P)
        (invites : InviteRegistry F P) : Type 0 where
      later : InviteRegistry F P
      kept : (register_node hash attempt.headers attempt.node s).1.invites ≡ some later
      still : enforcing later ≡ true
      spent :
          counted hash h attempt (register_node hash attempt.headers attempt.node s).0
            + remaining h later
          ≤ remaining h invites

    register_node-StepsDown :
        (h : String) (attempt : Attempt F) (s : AppState F P) (invites : InviteRegistry F P)
        → s.invites ≡ some invites
        → enforcing invites ≡ true
        → StepsDown h attempt s invites
    register_node-StepsDown h attempt s invites here e =
        let headers = attempt.headers in
        let node = attempt.node in
        elim (Bool-cases (is_refused hash s.invites headers.x_invite_code)) [
          | inl r ↦
              let same = register_node-refused headers node s r in
              record {
                later = invites;
                kept = ap (λ x. x.1.invites) same ∙ here;
                still = e;
                spent = rw same (omega arith);
              }
          | inr r ↦ elim (Bool-cases (contains node.node_id s.registry.nodes)) [
            | inl k ↦
                let (result, same, _) = register_node-known headers node s r k in
                record {
                  later = invites;
                  kept = same ∙ here;
                  still = e;
                  spent = rw result (omega arith);
                }
            | inr k ↦
                let (result, after, _) = register_node-new headers node s r k in
                let usable : is_refused hash (some invites) headers.x_invite_code ≡ false =
                  ap (λ x. is_refused hash x headers.x_invite_code) (sym here) ∙ r in
                let (later, left, still, less) =
                  redeemed-remaining hash h headers.x_invite_code invites e usable in
                record {
                  later = later;
                  kept = after ∙ (ap (λ x. redeemed hash x headers.x_invite_code) here ∙ left);
                  still = still;
                  spent = rw result less;
                }
          ]
        ]

    -- While codes are enforced, however nodes attempt to register, the registrations that a code
    -- admits are at most as many as its uses leave.
    pub registrations-le-remaining :
        (h : String) (attempts : List (Attempt F)) (s : AppState F P) (invites : InviteRegistry F P)
        → s.invites ≡ some invites
        → enforcing invites ≡ true
        → registrations h attempts s ≤ remaining h invites
    unfolding registrations
    registrations-le-remaining h [] s invites here e = omega arith
    registrations-le-remaining h (attempt ∷ attempts) s invites here e =
        let step = register_node-StepsDown h attempt s invites here e in
        let s' = (register_node hash attempt.headers attempt.node s).1 in
        let less = step.spent in
        let rest = registrations-le-remaining h attempts s' step.later step.kept step.still in
        omega arith
