-- ===== src/Checkpoint/Sequence.antt =====
-- The sequence numbers that a series of saves of one wallet claims.
use umbra_db.Prelude.{
  ℕ, ◌+◌, ◌≤◌, ◌<◌, ◌≡◌, refl, ap, ◌∙◌, false, List, [], ◌∷◌, Option, none, length, ◌=?◌, arith,
}
use umbra_db.Table.{lookup-put_ne}
use umbra_db.Slices.Laws.{slices_cover}
use umbra_db.Errors.{ok}
use umbra_db.Exec.{Exec, pure, ◌>>=◌}
use umbra_db.Exec.Steps.{>>=_ok}
use umbra_db.Checkpoint.Tables.{Bytes, WalletKey, wallet_key_eq, CkptTables}
use umbra_db.Checkpoint.Save.{Summary, save_impl, chunk_size_or_default, max_safe_integer}
use umbra_db.Checkpoint.Writes.{next_seq, or_one, saved, save_impl_lem}
use umbra_db.Checkpoint.Invariant.{Sound, saved-Sound, next_seq-claimed}

-- n, n + 1, ... for as many saves as there are payloads
abbrev pub from : ℕ → List Bytes → List ℕ
from n [] = []
from n (p ∷ ps) = n ∷ from (n + 1) ps

module _ (sha256 : Bytes → Bytes) (now : ℕ) (key : WalletKey) (chunk_size : Option ℕ) where
  -- the payloads saved one after the other, with the sequences of the summaries
  abbrev pub save_all : List Bytes → Exec CkptTables (List ℕ)
  save_all [] = pure []
  save_all (p ∷ ps) = save_impl sha256 now key p chunk_size none >>= λ (s : Summary).
      save_all ps >>= λ rest. pure (s.sequence ∷ rest)

  -- From well-formed tables, with a positive chunk size and as many sequences left below
  -- Number.MAX_SAFE_INTEGER as there are payloads: saving the payloads one after the other returns,
  -- the checkpoints are numbered without a gap from the wallet's next sequence on, the numbering
  -- of every other wallet is as it was, and the tables are well-formed again.
  pub save_all_gapless :
      (ps : List Bytes) (other : WalletKey) (t : CkptTables)
      → Sound sha256 t
      → 0 < chunk_size_or_default chunk_size
      → next_seq key t.counters + length ps ≤ max_safe_integer + 1
      → (key =? other) ≡ false
      → (t' : CkptTables) × (save_all ps t ≡ (t', ok (from (next_seq key t.counters) ps)))
        × (next_seq other t'.counters ≡ next_seq other t.counters)
        × Sound sha256 t'
  unfolding pure
  save_all_gapless [] other t s size room apart = (t, refl, refl, s)
  save_all_gapless (p ∷ ps) other t s size room apart =
      let cut = slices_cover (chunk_size_or_default chunk_size) p size in
      let t1 = saved sha256 now key cut.0 none t in
      let claimed = next_seq-claimed sha256 key t.counters in
      let rest =
        save_all_gapless ps other t1 (saved-Sound sha256 now key cut.0 none t s) size
          (omega (arith, claimed)) apart in
      let spared : next_seq other t1.counters ≡ next_seq other t.counters =
        ap or_one (lookup-put_ne key other (next_seq key t.counters + 1) t.counters apart) in
      (
        rest.0,
        >>=_ok _ _ t (save_impl_lem sha256 now key p chunk_size none t (omega arith) cut.0 cut.1)
            ∙ >>=_ok _ _ t1 rest.1
            ∙ ap (λ n. (rest.0, ok (next_seq key t.counters ∷ from n ps))) claimed,
        rest.2 ∙ spared,
        rest.3,
      )
