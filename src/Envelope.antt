-- ===== src/Envelope.antt =====
-- The wallet-state envelope: src/interfaces/wallet-state-envelope.ts and PgWalletStateEnvelopeStore
-- of src/postgres/wallet-state-envelope.ts, over any checkpoint store.
pub mod Decode
pub mod Store
use umbra_db.Prelude.{
  ℕ, Bool, true, false, not, ◌&&◌, ◌||◌, List, [], ◌∷◌, Option, none, some, Text, text_beq, any,
  ◌==◌, units, if◌then◌else◌,
}
use umbra_db.SafeText.{has_postgres_unsafe_text, is_nonempty_text}
use umbra_db.Errors.{
  storage, validation_failed, envelope_corrupt, envelope_version_unsupported, Result, ok, fail,
}
use umbra_db.Exec.{Exec, lift, ◌>>=◌, ◌>>◌, require, pure}
use umbra_db.Json.{Json, Fields, null, num, str, obj, end, field}
use umbra_db.Checkpoint.Tables.{Bytes, WalletKey}
use umbra_db.Checkpoint.Save.{Summary}
use umbra_db.Checkpoint.Load.{CheckpointRecord}
use umbra_db.TxHistory.Entry.{property}

-- ENVELOPE_VERSION
abbrev pub envelope_version : ℕ
envelope_version = 1

-- the bit pattern of the number 1
abbrev pub version_bits : ℕ
version_bits = 0x3FF0000000000000

pub record WalletStateEnvelope : Type 0 where
  pub version : ℕ
  pub wallet_id : Text
  pub network_id : Text
  pub shielded : Option Text
  pub unshielded : Option Text
  pub dust : Option Text

-- SubWalletSlotSchema, on a slot
unfoldable pub is_slot : Option Text → Bool
is_slot none = true
is_slot (some s) = not (has_postgres_unsafe_text s)

-- WalletStateEnvelopeShapeSchema, on an envelope whose version is a positive integer
unfoldable pub is_envelope : WalletStateEnvelope → Bool
is_envelope e =
    (is_nonempty_text e.wallet_id && is_nonempty_text e.network_id)
    && (is_slot e.shielded && (is_slot e.unshielded && is_slot e.dust))

unfoldable pub slot_json : Option Text → Json
slot_json none = null
slot_json (some s) = str s

-- the object that encode serializes, with its version 1
unfoldable pub envelope_json : WalletStateEnvelope → Json
envelope_json e = obj (
    field (units "envelopeVersion") (num version_bits) (
      field (units "walletId") (str e.wallet_id) (
        field (units "networkId") (str e.network_id) (
          field (units "subWallets")
            (obj (
              field (units "shielded") (slot_json e.shielded) (
                field (units "unshielded") (slot_json e.unshielded)
                  (field (units "dust") (slot_json e.dust) end))))
            end))))

abbrev corrupt {ℓ} : {A : Type ℓ} → Result A
corrupt = fail (storage envelope_corrupt)

-- .strict(): no other key
unfoldable pub has_only : List Text → Fields → Bool
has_only names end = true
has_only names (field k v fs) = any (text_beq k) names && has_only names fs

unfoldable pub read_text : Option Json → Result Text
read_text (some (str s)) = ok s
read_text v = corrupt

unfoldable pub read_slot : Option Json → Result (Option Text)
read_slot (some null) = ok none
read_slot (some (str s)) = ok (some s)
read_slot v = corrupt

unfoldable pub read_sub_wallets : Option Json → Result Fields
read_sub_wallets (some (obj fs)) =
    if has_only (units "shielded" ∷ units "unshielded" ∷ units "dust" ∷ []) fs
    then ok fs
    else corrupt
read_sub_wallets v = corrupt

-- safeParse at the end of decode, of values of the right types
unfoldable pub checked_envelope : WalletStateEnvelope → Result WalletStateEnvelope
checked_envelope e = if is_envelope e then ok e else corrupt

-- What encode and decode rely on: TextEncoder, a fatal TextDecoder, JSON.stringify and JSON.parse,
-- and a number's value if it is a positive integer.
pub record Codecs : Type 0 where
  pub text_encode : Text → Bytes
  pub text_decode : Bytes → Option Text
  pub json_stringify : Json → Text
  pub json_parse : Text → Option Json
  pub positive_integer : ℕ → Option ℕ

-- the rest of a computation that may throw
unfoldable pub and_then {ℓ κ} : {A : Type ℓ} {B : Type κ} → Result A → (A → Result B) → Result B
and_then (ok a) f = f a
and_then (fail e) f = fail e

-- step 3 of decode: WalletStateEnvelopeShapeSchema.safeParse(raw)
unfoldable pub parse_shape : Fields → Result WalletStateEnvelope
unfolding and_then
parse_shape fs =
    if has_only
      (units "envelopeVersion" ∷ units "walletId" ∷ units "networkId" ∷ units "subWallets" ∷ []) fs
    then and_then (read_text (property (units "walletId") fs)) (λ w.
      and_then (read_text (property (units "networkId") fs)) (λ n.
        and_then (read_sub_wallets (property (units "subWallets") fs)) (λ subs.
          and_then (read_slot (property (units "shielded") subs)) (λ shielded.
            and_then (read_slot (property (units "unshielded") subs)) (λ unshielded.
              and_then (read_slot (property (units "dust") subs)) (λ dust.
                checked_envelope (record {
                  version = envelope_version;
                  wallet_id = w;
                  network_id = n;
                  shielded = shielded;
                  unshielded = unshielded;
                  dust = dust;
                })))))))
    else corrupt

module _ (codecs : Codecs) where
  unfoldable pub encode : WalletStateEnvelope → Result Bytes
  encode e =
      if is_envelope e
      then (if e.version == envelope_version
          then ok (codecs.text_encode (codecs.json_stringify (envelope_json e)))
          else fail (storage validation_failed))
      else fail (storage validation_failed)

  -- step 2 of decode, on the value of `envelopeVersion`
  unfoldable pub check_version : Option ℕ → Fields → Result WalletStateEnvelope
  unfolding parse_shape
  check_version none fs = corrupt
  check_version (some v) fs =
      if v == envelope_version
      then parse_shape fs
      else fail (storage (envelope_version_unsupported v))

  unfoldable pub version_of : Option Json → Option ℕ
  version_of (some (num n)) = codecs.positive_integer n
  version_of v = none

  unfoldable pub decode_object : Option Json → Result WalletStateEnvelope
  unfolding check_version version_of
  decode_object (some (obj fs)) =
      check_version (version_of (property (units "envelopeVersion") fs)) fs
  decode_object v = corrupt

  unfoldable pub decode_text : Option Text → Result WalletStateEnvelope
  unfolding decode_object
  decode_text none = corrupt
  decode_text (some text) = decode_object (codecs.json_parse text)

  unfoldable pub decode : Bytes → Result WalletStateEnvelope
  unfolding decode_text
  decode bytes = decode_text (codecs.text_decode bytes)
