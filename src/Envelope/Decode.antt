-- ===== src/Envelope/Decode.antt =====
-- decode after encode, and what decode may give (src/interfaces/wallet-state-envelope.ts).
use umbra_db.Prelude.{
  ℕ, ◌≡◌, refl, Bool, true, false, Option, none, some, Text, units, ◌==◌, ==_iff, Bool-cases, inl,
  inr, if◌then◌else◌,
}
use umbra_db.Errors.{
  Thrown, storage, envelope_corrupt, envelope_version_unsupported, Result, ok, fail,
}
use umbra_db.Json.{Json, Fields, null, bool, num, str, arr, obj}
use umbra_db.Checkpoint.Tables.{Bytes}
use umbra_db.TxHistory.Entry.{property}
use umbra_db.Envelope.{
  envelope_version, version_bits, WalletStateEnvelope, is_envelope, slot_json, envelope_json,
  has_only, read_text, read_slot, read_sub_wallets, checked_envelope, Codecs, and_then, parse_shape,
  encode, check_version, version_of, decode_object, decode_text, decode,
}

-- For this envelope TextDecoder gives back what TextEncoder wrote, and JSON.parse what
-- JSON.stringify wrote; and 1 is a positive integer.
pub record Lossless (codecs : Codecs) (e : WalletStateEnvelope) : Type 0 where
  pub decodes :
      codecs.text_decode (codecs.text_encode (codecs.json_stringify (envelope_json e)))
      ≡ some (codecs.json_stringify (envelope_json e))
  pub parses : codecs.json_parse (codecs.json_stringify (envelope_json e)) ≡ some (envelope_json e)
  pub one : codecs.positive_integer version_bits ≡ some envelope_version

read_slot_back : (s : Option Text) → read_slot (some (slot_json s)) ≡ ok s
unfolding read_slot slot_json
read_slot_back none = refl
read_slot_back (some s) = refl

module _ (codecs : Codecs) (e : WalletStateEnvelope) (lossless : Lossless codecs e) where
  shape_back :
      is_envelope e ≡ true
      → e.version ≡ envelope_version
      → decode_object codecs (some (envelope_json e)) ≡ ok e
  unfolding decode_object envelope_json version_of check_version property parse_shape has_only
      and_then read_text read_sub_wallets checked_envelope
  shape_back valid version =
      rw
        (
          lossless.one,
          read_slot_back e.shielded,
          read_slot_back e.unshielded,
          read_slot_back e.dust,
          ← version,
          valid,
        )
        refl

  -- If the text and JSON codecs of the platform give back the envelope that they were given: an
  -- envelope that passes its schema and has the current version is encoded, and decoding the bytes
  -- gives the envelope back.
  pub encode-decode :
      is_envelope e ≡ true
      → e.version ≡ envelope_version
      → (bytes : Bytes) × (encode codecs e ≡ ok bytes) × (decode codecs bytes ≡ ok e)
  unfolding encode decode decode_text
  encode-decode valid version = (
    codecs.text_encode (codecs.json_stringify (envelope_json e)),
    rw (valid, (==_iff e.version envelope_version).1 version) refl,
    rw (lossless.decodes, lossless.parses) (shape_back valid version),
  )

-- what decode throws
abbrev pub IsUndecodable : Thrown → Type 0
IsUndecodable (storage envelope_corrupt) = Unit
IsUndecodable (storage (envelope_version_unsupported v)) = (v == envelope_version) ≡ false
IsUndecodable e = ⊥

-- an envelope of the schema and the current version, or one of decode's two errors
abbrev pub DecodesTo : Result WalletStateEnvelope → Type 0
DecodesTo (ok e) = (is_envelope e ≡ true) × (e.version ≡ envelope_version)
DecodesTo (fail e) = IsUndecodable e

abbrev Corrupts {ℓ} : {A : Type ℓ} → Result A → Type 0
Corrupts (ok a) = Unit
Corrupts (fail e) = IsUndecodable e

and_then-DecodesTo :
    {A : Type 0} (r : Result A) (f : A → Result WalletStateEnvelope)
    → Corrupts r
    → ((a : A) → DecodesTo (f a))
    → DecodesTo (and_then r f)
unfolding and_then
and_then-DecodesTo (ok a) f h g = g a
and_then-DecodesTo (fail e) f h g = h

read_text-Corrupts : (o : Option Json) → Corrupts (read_text o)
unfolding read_text
read_text-Corrupts none = tt
read_text-Corrupts (some null) = tt
read_text-Corrupts (some (bool b)) = tt
read_text-Corrupts (some (num n)) = tt
read_text-Corrupts (some (str s)) = tt
read_text-Corrupts (some (arr xs)) = tt
read_text-Corrupts (some (obj fs)) = tt

read_slot-Corrupts : (o : Option Json) → Corrupts (read_slot o)
unfolding read_slot
read_slot-Corrupts none = tt
read_slot-Corrupts (some null) = tt
read_slot-Corrupts (some (bool b)) = tt
read_slot-Corrupts (some (num n)) = tt
read_slot-Corrupts (some (str s)) = tt
read_slot-Corrupts (some (arr xs)) = tt
read_slot-Corrupts (some (obj fs)) = tt

Corrupts-if :
    {A : Type 0} (b : Bool) (a : A) → Corrupts (if b then ok a else fail (storage envelope_corrupt))
Corrupts-if true a = tt
Corrupts-if false a = tt

read_sub_wallets-Corrupts : (o : Option Json) → Corrupts (read_sub_wallets o)
unfolding read_sub_wallets
read_sub_wallets-Corrupts none = tt
read_sub_wallets-Corrupts (some null) = tt
read_sub_wallets-Corrupts (some (bool b)) = tt
read_sub_wallets-Corrupts (some (num n)) = tt
read_sub_wallets-Corrupts (some (str s)) = tt
read_sub_wallets-Corrupts (some (arr xs)) = tt
read_sub_wallets-Corrupts (some (obj fs)) = Corrupts-if (has_only _ fs) fs

checked-DecodesTo :
    (e : WalletStateEnvelope) → e.version ≡ envelope_version → DecodesTo (checked_envelope e)
unfolding checked_envelope
checked-DecodesTo e version = elim (Bool-cases (is_envelope e)) [
  | inl valid ↦ rw valid (valid, version)
  | inr invalid ↦ rw invalid tt
]

DecodesTo-if :
    (b : Bool) (r : Result WalletStateEnvelope) (e : Thrown)
    → DecodesTo r
    → (b ≡ false → IsUndecodable e)
    → DecodesTo (if b then r else fail e)
DecodesTo-if true r e h g = h
DecodesTo-if false r e h g = g refl

shape-DecodesTo : (fs : Fields) → DecodesTo (parse_shape fs)
unfolding parse_shape
shape-DecodesTo fs =
    DecodesTo-if (has_only _ fs) _ _
      (and_then-DecodesTo _ _ (read_text-Corrupts (property (units "walletId") fs)) λ w.
        and_then-DecodesTo _ _ (read_text-Corrupts (property (units "networkId") fs)) λ n.
          and_then-DecodesTo _ _ (read_sub_wallets-Corrupts (property (units "subWallets") fs))
            λ subs.
              and_then-DecodesTo _ _ (read_slot-Corrupts (property (units "shielded") subs)) λ a.
                and_then-DecodesTo _ _ (read_slot-Corrupts (property (units "unshielded") subs))
                  λ b.
                    and_then-DecodesTo _ _ (read_slot-Corrupts (property (units "dust") subs))
                      λ c. checked-DecodesTo _ refl)
      (λ other. tt)

module _ (codecs : Codecs) where
  version-DecodesTo : (v : Option ℕ) (fs : Fields) → DecodesTo (check_version codecs v fs)
  unfolding check_version
  version-DecodesTo none fs = tt
  version-DecodesTo (some v) fs =
      DecodesTo-if (v == envelope_version) _ _ (shape-DecodesTo fs) (λ other. other)

  object-DecodesTo : (o : Option Json) → DecodesTo (decode_object codecs o)
  unfolding decode_object
  object-DecodesTo none = tt
  object-DecodesTo (some null) = tt
  object-DecodesTo (some (bool b)) = tt
  object-DecodesTo (some (num n)) = tt
  object-DecodesTo (some (str s)) = tt
  object-DecodesTo (some (arr xs)) = tt
  object-DecodesTo (some (obj fs)) =
      version-DecodesTo (version_of codecs (property (units "envelopeVersion") fs)) fs

  text-DecodesTo : (o : Option Text) → DecodesTo (decode_text codecs o)
  unfolding decode_text
  text-DecodesTo none = tt
  text-DecodesTo (some text) = object-DecodesTo (codecs.json_parse text)

  -- Whatever bytes it is given, decode gives an envelope that passes the schema and has the current
  -- version, or throws EnvelopeCorruptError, or EnvelopeVersionUnsupportedError with another
  -- version.
  pub decode-DecodesTo : (bytes : Bytes) → DecodesTo (decode codecs bytes)
  unfolding decode
  decode-DecodesTo bytes = text-DecodesTo (codecs.text_decode bytes)
