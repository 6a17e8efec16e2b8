-- ===== src/Tests/Envelopes.antt =====
-- The theorems on wallet-state envelopes, at one envelope and empty checkpoint tables.
use umbra_db.Prelude.{ℕ, ◌≡◌, ◌≤◌, ◌⊎◌, refl, true, [], ◌∷◌, none, some, units, arith}
use umbra_db.SafeText.{
  has_postgres_unsafe_text, is_nonempty_text, has_lone_surrogate, is_high_surrogate,
  is_low_surrogate, is_bounded_text, starts_with_low,
}
use umbra_db.Errors.{ok}
use umbra_db.Exec.{run}
use umbra_db.Checkpoint.Tables.{Bytes, CkptTables}
use umbra_db.Checkpoint.Save.{Summary, max_safe_integer}
use umbra_db.Checkpoint.Writes.{next_seq}
use umbra_db.TxHistory.Entry.{property}
use umbra_db.Table.{lookup}
use umbra_db.Checkpoint.Load.{CheckpointRecord}
use umbra_db.Checkpoint.Integrity.{Collision}
use umbra_db.Checkpoint.Calls.{are_valid_ids}
use umbra_db.Envelope.{
  WalletStateEnvelope, is_envelope, is_slot, envelope_json, envelope_version, Codecs, encode,
  decode, decode_text, decode_object, version_of, check_version, parse_shape, has_only, and_then,
  read_text, read_sub_wallets, read_slot, checked_envelope, slot_json,
}
use umbra_db.Envelope.Decode.{Lossless, DecodesTo, encode-decode, decode-DecodesTo}
use umbra_db.Envelope.Store.{CheckpointStore, echoes, save, load, checkpoint_store}
use umbra_db.Envelope.Store.Restored.{load-echoes, save-load}
use umbra_db.Tests.Snapshots.{digest, length-pad, no_rows, no_rows-Sound}

-- only the unshielded sub-wallet was exercised
abbrev partial : WalletStateEnvelope
partial = record {
  version = 1;
  wallet_id = units "w";
  network_id = units "preprod";
  shielded = none;
  unshielded = some (units "state");
  dust = none;
}

-- codecs that know this envelope's text
abbrev codecs : Codecs
codecs = record {
  text_encode = λ text. text;
  text_decode = λ bytes. some bytes;
  json_stringify = λ v. units "envelope";
  json_parse = λ text. some (envelope_json partial);
  positive_integer = λ bits. some 1;
}

lossless : Lossless codecs partial
lossless = record { decodes = refl; parses = refl; one = refl }

valid : is_envelope partial ≡ true
unfolding is_envelope is_slot is_nonempty_text has_postgres_unsafe_text has_lone_surrogate
    is_high_surrogate is_low_surrogate
valid = refl

encode-decode_example :
    (bytes : Bytes) × (encode codecs partial ≡ ok bytes) × (decode codecs bytes ≡ ok partial)
encode-decode_example = encode-decode codecs partial lossless valid refl

decode-DecodesTo_example : DecodesTo (decode codecs (1 ∷ 2 ∷ []))
decode-DecodesTo_example = decode-DecodesTo codecs (1 ∷ 2 ∷ [])

room :
    next_seq (record { w = units "w"; net = units "preprod" }) (no_rows).counters ≤ max_safe_integer
unfolding lookup
room = omega arith

ids : are_valid_ids (record { w = units "w"; net = units "preprod" }) ≡ true
unfolding are_valid_ids is_bounded_text is_nonempty_text has_postgres_unsafe_text has_lone_surrogate
    is_high_surrogate is_low_surrogate starts_with_low
ids = refl

save-load_example :
    (t' : CkptTables) × (s : Summary) × (save codecs
        (checkpoint_store digest 5)
        (units "w")
        (units "preprod")
        partial
        no_rows
      ≡ (t', ok s))
    × ((load codecs (checkpoint_store digest 5) (units "w") (units "preprod") none t'
          ≡ (t', ok partial))
        ⊎ Collision digest)
save-load_example =
    save-load codecs digest (length-pad 32) 5 partial no_rows lossless valid refl no_rows-Sound ids
      room

abbrev summary : Summary
summary = record {
  sequence = 1;
  manifest_hash = [];
  byte_length = 8;
  chunk_count = 1;
  label = none;
  created_at = 5;
}

-- a checkpoint store that has one payload for every wallet
abbrev one_payload : CheckpointStore ℕ
one_payload = record {
  save_bytes = λ w n bytes s. (s, ok summary);
  load_record =
      λ w n sequence s. (s, ok (record { summary = summary; payload = units "envelope" }));
}

decoded : decode codecs (units "envelope") ≡ ok partial
unfolding decode decode_text decode_object version_of check_version property parse_shape has_only
    and_then read_text read_sub_wallets read_slot checked_envelope is_envelope is_slot
    is_nonempty_text has_postgres_unsafe_text has_lone_surrogate is_high_surrogate is_low_surrogate
    envelope_json slot_json
decoded = refl

loaded : load codecs one_payload (units "w") (units "preprod") none 3 ≡ (3, ok partial)
unfolding load run echoes
loaded = rw decoded refl

load-echoes_example :
    (r : CheckpointRecord) × (one_payload.load_record (units "w") (units "preprod") none 3
      ≡ (3, ok r))
    × (decode codecs r.payload ≡ ok partial)
    × (is_envelope partial ≡ true)
    × (partial.version ≡ envelope_version)
    × (partial.wallet_id ≡ units "w")
    × (partial.network_id ≡ units "preprod")
load-echoes_example =
    load-echoes codecs one_payload (units "w") (units "preprod") none 3 3 partial loaded
