-- ===== src/Secrets/Decode.antt =====
-- pkg/secrets/secrets.go: `Decode` and `DecodeAsFile`. The engines that decrypt are a library's.
use spinnaker_operator.Base.{
  String, Bool, true, false, ◌≡◌, refl, ◌⊎◌, inl, inr, Option, none, some, arith, Option-cases,
  if◌then◌else◌,
}
use spinnaker_operator.Base.Dict.{lookup, insert, lookup-insert_self}
use spinnaker_operator.Secrets.Context.{SecretContext}

-- `IsFile` and what `Decrypt` returns now.
pub record Decrypter (E : Type 0) : Type 0 where
  pub is_file : Bool
  pub decrypt : E ⊎ String

-- The functions of the secrets library that the operator calls.
pub record Engines (E : Type 0) : Type 0 where
  pub is_encrypted_secret : String → Bool
  pub new_decrypter : Option SecretContext → String → E ⊎ Decrypter E

pub data DecodeError (E : Type 0) : Type 0 where
  no_decrypter cannot_decrypt : E → DecodeError E
  no_context no_such_file : DecodeError E

-- The value, whether it is a file, and the error.
abbrev pub Decoded : Type 0 → Type 0
Decoded E = String × Bool × Option (DecodeError E)

module _ {E : Type 0} where
  abbrev fetch : Decrypter E → SecretContext → String → Option SecretContext × Decoded E
  fetch dec c val = elim dec.decrypt [
    | inl e ↦ (some c, (String.[], false, some (cannot_decrypt e)))
    | inr v ↦
        if dec.is_file
        then (some (record c { file_cache = insert val v c.file_cache }), (v, true, none))
        else (some (record c { cache = insert val v c.cache }), (v, false, none))
  ]

  -- The cache of values is asked before the cache of files.
  abbrev with_context :
      Option SecretContext → Decrypter E → String → Option SecretContext × Decoded E
  with_context none dec val = (none, (String.[], false, some no_context))
  with_context (some c) dec val = elim (lookup val c.cache) [
    | some v ↦ (some c, (v, false, none))
    | none ↦ elim (lookup val c.file_cache) [
      | some v ↦ (some c, (v, true, none))
      | none ↦ fetch dec c val
    ]
  ]

  unfoldable pub decode :
      Engines E → Option SecretContext → String → Option SecretContext × Decoded E
  decode eng ctx val =
      if eng.is_encrypted_secret val
      then elim (eng.new_decrypter ctx val) [
        | inl e ↦ (ctx, (val, false, some (no_decrypter e)))
        | inr dec ↦ with_context ctx dec val
      ]
      else (ctx, (val, false, none))

  abbrev stat :
      (String → Bool)
      → Option SecretContext × Decoded E
      → Option SecretContext × String × Option (DecodeError E)
  stat exists (ctx, (s, f, some e)) = (ctx, String.[], some e)
  stat exists (ctx, (s, f, none)) = (ctx, s, if exists s then none else some no_such_file)

  -- `exists` is what `os.Stat` finds.
  unfoldable pub decode_as_file :
      Engines E
      → (String → Bool)
      → Option SecretContext
      → String
      → Option SecretContext × String × Option (DecodeError E)
  unfolding decode
  decode_as_file eng exists ctx val = stat exists (decode eng ctx val)

  fetch_again :
      (dec dec' : Decrypter E) (c : SecretContext) (val v : String) (f : Bool)
      {ctx' : Option SecretContext}
      → lookup val c.cache ≡ none
      → fetch dec c val ≡ (ctx', (v, f, none))
      → with_context ctx' dec' val ≡ (ctx', (v, f, none))
  fetch_again dec dec' c val v f gone h =
      ground (arith, gone, lookup-insert_self val v c.cache, lookup-insert_self val v c.file_cache)

  with_context_again :
      (dec dec' : Decrypter E) (ctx ctx' : Option SecretContext) (val v : String) (f : Bool)
      → with_context ctx dec val ≡ (ctx', (v, f, none))
      → with_context ctx' dec' val ≡ (ctx', (v, f, none))
  with_context_again dec dec' none ctx' val v f h = ground arith
  with_context_again dec dec' (some c) ctx' val v f h = elim (Option-cases (lookup val c.cache)) [
    | inr (w, there) ↦ ground (arith, there)
    | inl gone ↦ elim (Option-cases (lookup val c.file_cache)) [
      | inr (w, there) ↦ ground (arith, gone, there)
      | inl gone_too ↦ fetch_again dec dec' c val v f gone (ground (arith, gone, gone_too))
    ]
  ]

  -- Once a value is decoded it stays decoded: a later call with the same context gives the same
  -- answer and does not depend on what the engines then return, as long as a decrypter is made.
  decode_again :
      (eng eng' : Engines E) (ctx ctx' : Option SecretContext) (val v : String) (f : Bool)
      (dec' : Decrypter E)
      → eng'.is_encrypted_secret val ≡ eng.is_encrypted_secret val
      → eng'.new_decrypter ctx' val ≡ inr dec'
      → decode eng ctx val ≡ (ctx', (v, f, none))
      → decode eng' ctx' val ≡ (ctx', (v, f, none))
  unfolding decode
  decode_again eng eng' ctx ctx' val v f dec' same made h = again (eng.new_decrypter ctx val) refl
    where
      again :
          (n : E ⊎ Decrypter E)
          → eng.new_decrypter ctx val ≡ n
          → decode eng' ctx' val ≡ (ctx', (v, f, none))
      again (inl e) p = ground (arith, p)
      again (inr dec) p = ground (arith, p, with_context_again dec dec' ctx ctx' val v f)
