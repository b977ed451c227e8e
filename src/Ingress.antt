-- ===== src/Ingress.antt =====
-- The check of a requester's token and the submission of a task
-- (packages/scheduler/src/scheduler/api/ingress.py). PyJWT is a parameter; the algorithm is RS256 in
-- every call.
pub mod Keys
mod Tests
use mathlib.Core.Option
use public_intelligence.Prelude.{
  ℕ, ◌≡◌, String, Bool, true, false, not, ◌||◌, Option, none, some, List, [], ◌∷◌, ◌++◌, keep,
  str_eq, is_truthy, if◌then◌else◌,
}
use public_intelligence.Prelude.Dict.{Dict, contains}
use public_intelligence.Prelude.Except.{Except, done, failed, ◌>>=◌, ◌>>◌, check, or_fail, then_do}
use public_intelligence.Prelude.Float.{Floats}
use public_intelligence.Registry.{Registry}
use public_intelligence.Router.Topics.{split, part_at}
use public_intelligence.Stream.Server.{starts_with}
use public_intelligence.Limiter.{TokenBucketLimiter, acquire}
use public_intelligence.Engine.{Strategy, EngineTask}
use public_intelligence.Engine.Allocation.{EngineError, no_ranked_node, unreadable_queue}
use public_intelligence.Engine.Single.{schedule_task}

-- PyJWT: the `kid` of an unverified header, `none` where there is none or it cannot be read; the
-- verified claims of a token under a key, `none` for a PyJWTError; and the claim `tenant_id`, with
-- `none` where there is none. A claim `tenant_id` that is no text is left out.
pub record Jwt (C : Type 0) : Type 0 where
  pub header_kid : String → Option String
  pub decode : String → String → Option C
  pub tenant_of : C → Option String

-- The answers with an HTTPException; `unhandled` is another exception.
pub data IngressError : Type 0 where
  unauthorized_401 quota_429 uninitialized_500 unschedulable_400 unhandled : IngressError

abbrev pub key_of : String → Option String → Dict String
key_of kid none = []
key_of kid (some key) = if is_truthy key then (kid, key) ∷ [] else []

-- `_verification_keys`, of the two keys of the application.
unfoldable pub verification_keys : Option String → Option String → Dict String
verification_keys primary secondary = key_of "primary" primary ++ key_of "secondary" secondary

abbrev pub is_named_by : Option String → String × String → Bool
is_named_by none item = false
is_named_by (some named) item = str_eq item.0 named

-- `ordered`: the key that the header names goes to the front, and the others keep their order.
abbrev pub ordered_keys : Option String → Dict String → List (String × String)
ordered_keys named candidates =
    keep (is_named_by named) candidates ++ keep (λ item. not (is_named_by named item)) candidates

abbrev is_empty : Dict String → Bool
is_empty [] = true
is_empty (item ∷ items) = false

module _ {C : Type 0} ⦃jwt : Jwt C⦄ where
  unfoldable pub try_keys : String → List (String × String) → Option C
  try_keys token [] = none
  try_keys token (item ∷ items) =
      let rest = try_keys token items in
      elim (jwt.decode token item.1) [ none ↦ rest | some claims ↦ some claims ]

  unfoldable pub decode_with_any : String → Dict String → Option C
  unfolding try_keys
  decode_with_any token candidates = try_keys token (ordered_keys (jwt.header_kid token) candidates)

  -- The dependency `verify_jwt`, with the claims and their tenant.
  unfoldable pub verify_jwt :
      Option String → Option String → Option String → Except IngressError (C × String)
  unfolding decode_with_any verification_keys
  verify_jwt primary secondary authorization = do
    header ← or_fail authorization unauthorized_401
    check (starts_with "Bearer " header) unauthorized_401
    token ← or_fail (part_at 1 (split b' ' header)) unhandled
    let candidates = verification_keys primary secondary
    check (not (is_empty candidates)) unauthorized_401
    claims ← or_fail (decode_with_any token candidates) unauthorized_401
    tenant_id ← or_fail (jwt.tenant_of claims) unauthorized_401
    done (claims, tenant_id)

-- What the route holds of the application.
pub record Gateway (F P : Type 0) : Type 0 where
  pub rate_limiter : Option (TokenBucketLimiter F)
  pub has_engine : Bool
  pub registry : Registry F P

-- `except ValueError`
abbrev engine_error : EngineError → IngressError
engine_error no_ranked_node = unhandled
engine_error unreadable_queue = unhandled
engine_error _ = unschedulable_400

abbrev of_engine : {A : Type 0} → Except EngineError A → Except IngressError A
of_engine (done a) = done a
of_engine (failed e) = failed (engine_error e)

abbrev allowed : Option Bool → Except IngressError (Unit {0})
allowed none = failed unhandled
allowed (some true) = done tt
allowed (some false) = failed quota_429

module _ {F P : Type 0} ⦃fl : Floats F⦄ where
  abbrev pass_limiter : F → String → Gateway F P → Except IngressError (Unit {0}) × Gateway F P
  pass_limiter now tenant_id g = elim g.rate_limiter [
    | none ↦ (done tt, g)
    | some limiter ↦
        let (answer, limiter') = acquire now tenant_id limiter in
        (allowed answer, record g { rate_limiter = some limiter' })
  ]

  -- `submit_task` behind `verify_jwt`, with the transaction hash and the node.
  unfoldable pub submit_task :
      (String → String → F → String)
      → Strategy F P
      → F
      → String
      → EngineTask F
      → Gateway F P
      → Except IngressError (String × String) × Gateway F P
  submit_task tx_hash strategy now tenant_id task g =
      then_do (pass_limiter now tenant_id g) (λ _ g'.
        let (result, r) = schedule_task tx_hash strategy task g'.registry in
        if g'.has_engine
        then (of_engine result, record g' { registry = r })
        else (failed uninitialized_500, g'))
