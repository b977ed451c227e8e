-- ===== src/Envelope/Opening.antt =====
-- What it takes for an envelope to open.
use Prim.Native.String.{◌++◌ as text_append}
use public_intelligence.Prelude.{
  ap, refl, ◌≡◌, ◌⊎◌, ◌++◌, ◌∷◌, String, true, Option, none, some, arith, inl, inr, Option-cases,
  eq_iff, eq_refl,
}
use public_intelligence.Prelude.Dict.{Dict, lookup}
use public_intelligence.Prelude.Except.{done}
use public_intelligence.Prelude.Float.{Floats}
use public_intelligence.Models.{Telemetry}
use public_intelligence.Mesh.Values.{Value, truth, number, text, other, object, not_object, Json}
use public_intelligence.Mesh.{text_of, is_version}
use public_intelligence.Envelope.{
  Payloads, Ciphers, Bytes, Parsed, payload, no_object, no_json, no_text, derive_key,
  associated_data, sealed, seal, decrypted, open_envelope, names, as_payload,
}

-- What the libraries promise of an envelope that is sealed: what is printed reads back, base64
-- decodes what it encoded, and AES-GCM decrypts what it encrypted, under the same key and
-- associated data.
pub record SealLaws {F : Type 0} (fl : Floats F) (ci : Ciphers) (pl : Payloads F) (j : Json F)
    (body : Telemetry F) (envelope : Dict (Value F)) (iv ciphertext : Bytes) : Type 0 where
  pub loads-dumps : j.loads (j.dumps envelope) ≡ some (object envelope)
  pub parse-print : pl.parse (pl.print body) ≡ payload body
  pub iv_decodes : ci.b64decode (ci.b64encode iv) ≡ some iv
  pub ciphertext_decodes : ci.b64decode (ci.b64encode ciphertext) ≡ some ciphertext
  pub decrypt-encrypt :
      (key iv plaintext aad : Bytes)
      → ci.decrypt key iv (ci.encrypt key iv plaintext aad) aad ≡ some plaintext
  pub one : fl.eq (fl.of_ℕ 1) (fl.of_ℕ 1) ≡ true

module _ {F : Type 0} ⦃fl : Floats F⦄ ⦃ci : Ciphers⦄ ⦃pl : Payloads F⦄ ⦃j : Json F⦄ where
  abbrev pub ciphertext_of : Telemetry F → String → String → String → Bytes → Bytes
  ciphertext_of body node_id token purpose iv =
      ci.encrypt (derive_key token purpose) iv (pl.print body) (associated_data node_id purpose)

  decrypted-sealed :
      (body : Telemetry F) (node_id token purpose : String) (iv : Bytes)
      → SealLaws fl ci pl j body
          (sealed body node_id token purpose iv)
          iv
          (ciphertext_of body node_id token purpose iv)
      → decrypted
          (ci.b64encode iv)
          (ci.b64encode (ciphertext_of body node_id token purpose iv))
          node_id
          token
          purpose
        ≡ some (pl.print body)
  unfolding decrypted
  decrypted-sealed body node_id token purpose iv laws =
      rw (decrypted, laws.iv_decodes, laws.ciphertext_decodes)
        (laws.decrypt-encrypt (derive_key token purpose) iv (pl.print body)
          (associated_data node_id purpose))

  -- What was sealed for a node with its token and for a purpose opens with these to what it was.
  pub open_envelope-seal :
      (body : Telemetry F) (node_id token purpose : String) (iv : Bytes)
      → SealLaws fl ci pl j body
          (sealed body node_id token purpose iv)
          iv
          (ciphertext_of body node_id token purpose iv)
      → open_envelope (seal body node_id token purpose iv) node_id token purpose ≡ done body
  unfolding open_envelope seal sealed lookup
  open_envelope-seal body node_id token purpose iv laws = rw (
    laws.loads-dumps,
    laws.one,
    eq_refl node_id,
    decrypted-sealed body node_id token purpose iv laws,
    laws.parse-print,
  )

  -- What it takes for a text to open as an envelope of a node, for a token and a purpose. The key
  -- and the associated data are written out.
  pub record IsSealed (raw node_id token purpose : String) (body : Telemetry F) : Type 0 where
    pub envelope : Dict (Value F)
    pub iv_b64 : String
    pub ct_b64 : String
    pub iv : Bytes
    pub ciphertext : Bytes
    pub plaintext : Bytes
    pub loaded : j.loads raw ≡ some (object envelope)
    pub version :
        (lookup "v" envelope ≡ some (truth true))
        ⊎ ((v : F) × (lookup "v" envelope ≡ some (number v)) × (fl.eq v (fl.of_ℕ 1) ≡ true))
    pub claimed : lookup "node_id" envelope ≡ some (text node_id)
    pub nonce : (lookup "iv" envelope ≡ some (text iv_b64)) × (ci.b64decode iv_b64 ≡ some iv)
    pub encrypted :
        (lookup "ciphertext" envelope ≡ some (text ct_b64))
        × (ci.b64decode ct_b64 ≡ some ciphertext)
    pub decrypts :
        ci.decrypt
          (ci.sha256
            (ci.utf8 token ++ (124 ∷ ci.utf8 (text_append "public-intelligence|mesh|v1|" purpose))))
          iv
          ciphertext
          (ci.utf8 (
            text_append
              (text_append "public-intelligence|mesh|v1|" purpose)
              (text_append "|" node_id)))
        ≡ some plaintext
    pub parsed : pl.parse plaintext ≡ payload body

is_version-cases :
    {F : Type 0} ⦃fl : Floats F⦄ (v : Option (Value F))
    → is_version v ≡ true
    → (v ≡ some (truth true)) ⊎ ((x : F) × (v ≡ some (number x)) × (fl.eq x (fl.of_ℕ 1) ≡ true))
is_version-cases none h = absurd (cc)
is_version-cases (some (truth b)) h = inl (ap (λ c. some (truth c)) h)
is_version-cases (some (number x)) h = inr (x, refl, h)
is_version-cases (some (text t)) h = absurd (cc)
is_version-cases (some other) h = absurd (cc)

text_of-some :
    {F : Type 0} (v : Option (Value F)) (s : String) → text_of v ≡ some s → v ≡ some (text s)
text_of-some none s h = cc
text_of-some (some (truth b)) s h = cc
text_of-some (some (number x)) s h = cc
text_of-some (some (text t)) s h = ground arith
text_of-some (some other) s h = cc

names-some : {F : Type 0} (v : Option (Value F)) (s : String) → names v s ≡ true → v ≡ some (text s)
names-some none s h = cc
names-some (some (truth b)) s h = cc
names-some (some (number x)) s h = cc
names-some (some (text t)) s h = ground (arith, eq_iff t s)
names-some (some other) s h = cc

as_payload-done :
    {F : Type 0} (p : Parsed F) (body : Telemetry F) → as_payload p ≡ done body → p ≡ payload body
as_payload-done (payload b) body h = ground arith
as_payload-done no_object body h = cc
as_payload-done no_json body h = cc
as_payload-done no_text body h = cc

module _ ⦃ci : Ciphers⦄ where
  decrypted-decrypt :
      (iv_b64 ct_b64 node_id token purpose : String) (plaintext : Bytes)
      → decrypted iv_b64 ct_b64 node_id token purpose ≡ some plaintext
      → (iv : Bytes) × (ciphertext : Bytes) × (ci.b64decode iv_b64 ≡ some iv)
        × (ci.b64decode ct_b64 ≡ some ciphertext)
        × (ci.decrypt (derive_key token purpose) iv ciphertext (associated_data node_id purpose)
            ≡ some plaintext)
  unfolding decrypted
  decrypted-decrypt iv_b64 ct_b64 node_id token purpose plaintext h =
      elim (Option-cases (ci.b64decode iv_b64)) [
        | inl e ↦ absurd (ground arith)
        | inr (iv, e) ↦ elim (Option-cases (ci.b64decode ct_b64)) [
          | inl e' ↦ absurd (ground arith)
          | inr (ciphertext, e') ↦ (iv, ciphertext, e, e', ground arith)
        ]
      ]

module _ {F : Type 0} ⦃fl : Floats F⦄ ⦃ci : Ciphers⦄ ⦃pl : Payloads F⦄ ⦃j : Json F⦄ where
  -- An envelope that opens for a node, a token and a purpose is a JSON object of version 1 that names
  -- the node, and its ciphertext is decrypted, as the bytes of the body that it opens to, under the
  -- SHA-256 of the token and the purpose and with the purpose and the node as associated data.
  pub open_envelope-IsSealed :
      (raw node_id token purpose : String) (body : Telemetry F)
      → open_envelope raw node_id token purpose ≡ done body
      → IsSealed raw node_id token purpose body
  unfolding open_envelope derive_key associated_data
  open_envelope-IsSealed raw node_id token purpose body h = elim (Option-cases (j.loads raw)) [
    | inl e ↦ absurd (ground arith)
    | inr (not_object, e) ↦ absurd (ground arith)
    | inr (object envelope, e) ↦ elim (Option-cases (text_of (lookup "iv" envelope))) [
      | inl e1 ↦ absurd (ground arith)
      | inr (iv_b64, e1) ↦ elim (Option-cases (text_of (lookup "ciphertext" envelope))) [
        | inl e2 ↦ absurd (ground arith)
        | inr (ct_b64, e2) ↦ elim (Option-cases (decrypted iv_b64 ct_b64 node_id token purpose)) [
          | inl e3 ↦ absurd (ground arith)
          | inr (plaintext, e3) ↦
              let (iv, ciphertext, iv_read, ct_read, decrypts) =
                decrypted-decrypt iv_b64 ct_b64 node_id token purpose plaintext e3 in
              record {
                envelope = envelope;
                iv_b64 = iv_b64;
                ct_b64 = ct_b64;
                iv = iv;
                ciphertext = ciphertext;
                plaintext = plaintext;
                loaded = e;
                version = is_version-cases (lookup "v" envelope) (ground arith);
                claimed = names-some (lookup "node_id" envelope) node_id (ground arith);
                nonce = (text_of-some (lookup "iv" envelope) iv_b64 e1, iv_read);
                encrypted = (text_of-some (lookup "ciphertext" envelope) ct_b64 e2, ct_read);
                decrypts = decrypts;
                parsed = as_payload-done (pl.parse plaintext) body (ground arith);
              }
        ]
      ]
    ]
  ]
