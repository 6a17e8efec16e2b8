-- ===== src/Envelope/Store/Restored.antt =====
-- What a load of PgWalletStateEnvelopeStore (src/postgres/wallet-state-envelope.ts) gives, and a
-- save with a load after it over the checkpoint store of src/postgres/checkpoint-store.ts.
use umbra_db.Prelude.{
  ℕ, ◌≡◌, ◌≤◌, ◌<◌, refl, sym, ap, ◌∙◌, subst, true, Option, none, Text, text_beq_iff, ◌⊎◌, inl,
  inr, length, arith,
}
use umbra_db.Errors.{ok}
use umbra_db.Exec.{run, pure, lift}
use umbra_db.Exec.Steps.{>>=_inv, >>=_ok, lift_inv, require->>=_inv, require->>=_true, lift->>=_ok}
use umbra_db.Checkpoint.Tables.{Bytes, WalletKey, CkptTables}
use umbra_db.Checkpoint.Save.{Summary, chunk_size_or_default, max_safe_integer}
use umbra_db.Checkpoint.Load.{CheckpointRecord}
use umbra_db.Checkpoint.Writes.{next_seq}
use umbra_db.Checkpoint.Invariant.{Sound}
use umbra_db.Checkpoint.Integrity.{Collision}
use umbra_db.Checkpoint.Roundtrip.{save_load}
use umbra_db.Envelope.{envelope_version, WalletStateEnvelope, is_envelope, Codecs, decode}
use umbra_db.Envelope.Decode.{Lossless, encode-decode, decode-DecodesTo, DecodesTo}
use umbra_db.Checkpoint.Calls.{are_valid_ids}
use umbra_db.Envelope.Store.{CheckpointStore, echoes, save, load, checkpoint_store}

echoed :
    (wallet network : Text) (e : WalletStateEnvelope)
    → echoes wallet network e ≡ true
    → (e.wallet_id ≡ wallet) × (e.network_id ≡ network)
unfolding echoes
echoed wallet network e h = (
  (text_beq_iff e.wallet_id wallet).0 (ground arith),
  (text_beq_iff e.network_id network).0 (ground arith),
)

own_echo : (e : WalletStateEnvelope) → echoes e.wallet_id e.network_id e ≡ true
unfolding echoes
own_echo e =
    rw
      (
        (text_beq_iff e.wallet_id e.wallet_id).1 refl,
        (text_beq_iff e.network_id e.network_id).1 refl,
      )
      refl

pure_run : {S A : Type 0} (a : A) (s : S) → pure a s ≡ (s, ok a)
unfolding run
pure_run a s = refl

default_positive : 0 < chunk_size_or_default none
default_positive = omega arith

module _ (codecs : Codecs) where
  module _ {S : Type 0} (store : CheckpointStore S) where
    own_envelope :
        (wallet network : Text) (sequence : Option ℕ) (s s1 s2 s' : S) (r : CheckpointRecord)
        (e' e : WalletStateEnvelope)
        → store.load_record wallet network sequence s ≡ (s1, ok r)
        → lift (decode codecs r.payload) s1 ≡ (s2, ok e')
        → echoes wallet network e' ≡ true
        → pure e' s2 ≡ (s', ok e)
        → (store.load_record wallet network sequence s ≡ (s', ok r))
          × (decode codecs r.payload ≡ ok e)
          × (is_envelope e ≡ true)
          × (e.version ≡ envelope_version)
          × (e.wallet_id ≡ wallet)
          × (e.network_id ≡ network)
    unfolding run
    own_envelope wallet network sequence s s1 s2 s' r e' e given decoded match last =
        let (kept, dec) = lift_inv _ s1 decoded in
        let same : e' ≡ e = cc in
        let state : s1 ≡ s' = sym kept ∙ ap (λ p. p.0) last in
        let dec' : decode codecs r.payload ≡ ok e = dec ∙ ap (λ x. ok x) same in
        let (valid, version) = subst DecodesTo dec' (decode-DecodesTo codecs r.payload) in
        let (w, n) =
          echoed wallet network e (subst (λ x. echoes wallet network x ≡ true) same match) in
        (given ∙ ap (λ x. (x, ok r)) state, dec', valid, version, w, n)

    -- Over any checkpoint store: an envelope that a load returns is the decoding of the payload
    -- that the checkpoint store gave for this wallet, passes the schema, has the current version,
    -- and names the wallet and the network that were asked for.
    pub load-echoes :
        (wallet network : Text) (sequence : Option ℕ) (s s' : S) (e : WalletStateEnvelope)
        → load codecs store wallet network sequence s ≡ (s', ok e)
        → (r : CheckpointRecord) × (store.load_record wallet network sequence s ≡ (s', ok r))
          × (decode codecs r.payload ≡ ok e)
          × (is_envelope e ≡ true)
          × (e.version ≡ envelope_version)
          × (e.wallet_id ≡ wallet)
          × (e.network_id ≡ network)
    unfolding load
    load-echoes wallet network sequence s s' e h =
        let (s1, r, given, h1) = >>=_inv _ _ s h in
        let (s2, e', decoded, h2) = >>=_inv _ _ s1 h1 in
        let (match, h3) = require->>=_inv _ _ _ s2 h2 in
        let (loaded, dec, valid, version, w, n) =
          own_envelope wallet network sequence s s1 s2 s' r e' e given decoded match h3 in
        (r, loaded, dec, valid, version, w, n)

  -- From well-formed tables of the checkpoint store, with a counter of the wallet that is at most
  -- Number.MAX_SAFE_INTEGER, ids that assertValidCheckpointIds accepts, a digest of 32 bytes and
  -- codecs that give back the envelope: the save of a valid envelope of the current version under
  -- its own wallet and network returns, and a load of the newest envelope returns that envelope, or
  -- two different inputs of one digest are at hand.
  pub save-load :
      (sha256 : Bytes → Bytes)
      → ((b : Bytes) → length (sha256 b) ≡ 32)
      → (now : ℕ) (e : WalletStateEnvelope) (t : CkptTables) → Lossless codecs e
      → is_envelope e ≡ true
      → e.version ≡ envelope_version
      → Sound sha256 t
      → are_valid_ids (record { w = e.wallet_id; net = e.network_id }) ≡ true
      → next_seq (record { w = e.wallet_id; net = e.network_id }) t.counters ≤ max_safe_integer
      → (t' : CkptTables) × (s : Summary) × (save codecs
            (checkpoint_store sha256 now)
            e.wallet_id
            e.network_id
            e
            t
          ≡ (t', ok s))
        × ((load codecs (checkpoint_store sha256 now) e.wallet_id e.network_id none t' ≡ (t', ok e))
            ⊎ Collision sha256)
  unfolding save load checkpoint_store
  save-load sha256 n now e t lossless valid version sound ids room =
      let (bytes, enc, dec) = encode-decode codecs e lossless valid version in
      let key : WalletKey = record { w = e.wallet_id; net = e.network_id } in
      let (t', s, r, saved, _, _, loaded, same) =
        save_load sha256 n now key bytes none none t sound (default_positive) room in
      (
        t',
        s,
        require->>=_true _ _ _ t (own_echo e)
            ∙ lift->>=_ok _ _ t enc
            ∙ require->>=_true _ _ _ t ids
            ∙ saved,
        elim same [
          | inr c ↦ inr c
          | inl (payload, _) ↦ inl (
              >>=_ok _ _ t' (require->>=_true _ _ _ t' ids ∙ ap (λ x. (t', x)) loaded)
              ∙ lift->>=_ok _ _ t' (ap (decode codecs) payload ∙ dec)
              ∙ require->>=_true _ _ _ t' (own_echo e)
              ∙ pure_run e t')
        ],
      )
