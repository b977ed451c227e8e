-- ===== src/Mesh/Values.antt =====
-- The data of the wire contract, and the errors (packages/shared/src/pi_shared/mesh_protocol.py).
use public_intelligence.Prelude.{ℕ, String, Bool, true, false, Option, none, some}
use public_intelligence.Prelude.Dict.{Dict}

-- A value of the envelope; `other` is null, an array or an object.
pub data Value (F : Type 0) : Type 0 where
  truth : Bool → Value F
  number : F → Value F
  text : String → Value F
  other : Value F

pub data Loaded (F : Type 0) : Type 0 where
  object : Dict (Value F) → Loaded F
  not_object : Loaded F

-- JSON; `loads` has `none` for the JSONDecodeError.
pub record Json (F : Type 0) : Type 0 where
  pub loads : String → Option (Loaded F)
  pub dumps : Dict (Value F) → String

-- UTF-8; `decode` has `none` for the UnicodeDecodeError.
pub record Utf8 (B : Type 0) : Type 0 where
  pub decode : B → Option String
  pub encode : String → B

-- hashlib and hmac, in hexadecimal digits. `compare_digest` has `none` for the TypeError at a text
-- that is not ASCII.
pub record Hashes : Type 0 where
  pub sha256 : String → String
  pub hmac : String → String → String
  pub compare_digest : String → String → Option Bool

-- The format `.6f`.
pub record Stamps (F : Type 0) : Type 0 where
  pub fixed : F → String

-- The causes of a MeshRequestError; `type_error` and `value_error` are the other exceptions.
pub data MeshError : Type 0 where
  not_configured malformed unsupported_version other_node stale bad_signature used_nonce : MeshError
  type_error value_error : MeshError

-- The status that a MeshRequestError carries.
unfoldable pub status : MeshError → Option ℕ
status malformed = some 400
status unsupported_version = some 400
status type_error = none
status value_error = none
status _ = some 401

pub data Outcome (A : Type 0) : Type 0 where
  returned : A → Outcome A
  raised : MeshError → Outcome A

infixl 5 ◌>>=◌ ◌>>◌
abbrev pub ◌>>=◌ : {A B : Type 0} → Outcome A → (A → Outcome B) → Outcome B
returned a >>= f = f a
raised e >>= f = raised e

abbrev pub ◌>>◌ : {B : Type 0} → Outcome (Unit {0}) → Outcome B → Outcome B
m >> k = m >>= λ _. k

abbrev pub guard : Bool → MeshError → Outcome (Unit {0})
guard true e = returned tt
guard false e = raised e

abbrev pub or_raise : {A : Type 0} → Option A → MeshError → Outcome A
or_raise none e = raised e
or_raise (some a) e = returned a

pub record MeshInferenceRequest : Type 0 where
  pub node_id : String
  pub model : String
  pub prompt : String
  pub stream : Bool

-- The fields of an envelope whose types are right.
pub record Fields (F : Type 0) : Type 0 where
  pub node_id : String
  pub model : String
  pub prompt : String
  pub stream : Bool
  pub nonce : String
  pub timestamp : F
  pub signature : String
