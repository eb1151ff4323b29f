-- ===== src/Broker/Commits/Restart.antt =====
-- The offsets that groups have committed are the ones that are recovered after a restart.
use mathlib.Core.List.{foldl-append}
use wave_mq.Prelude.{
  ◌^◌, ◌<◌, ◌≡◌, refl, sym, ap, subst, ◌∙◌, true, false, Bool-cases, inl, inr, All, All-append,
  some, List, [], ◌∷◌, ◌++◌, append_assoc, append-nil, length, if◌then◌else◌, ok, err,
}
use wave_mq.Wire.{Bytes, Writer, ◌▹◌, ▹-eq-ok, ok-injective, ℤ}
use wave_mq.Frames.{next_frame}
use wave_mq.Frames.Scan.{no_frame}
use wave_mq.OffsetStore.{
  Commit, Offsets, no_offsets, is_key, set_offset, recover, append_bytes, append_commit,
  encode_commits, encode_offset_record, replay_from,
}
use wave_mq.OffsetStore.Recovery.{IsInt64, recover-Stops}
use wave_mq.Broker.{Broker}
use wave_mq.Broker.Maps.{find, string_key, int_key}
use wave_mq.Broker.Commits
use wave_mq.Broker.Commits.Committed.{as_option, committed, refused-same, accepted-sets}

-- What is on disk: the commits that were accepted, which set what the groups find.
record Durable (b : Broker) : Type 0 where
  commits : List Commit
  small_offsets : All IsInt64 commits
  written : encode_commits commits ≡ ok b.offset_store.file
  same : (n t : Bytes) (p : ℤ) → committed b n t p ≡ replay_from no_offsets commits n t p

encode_commits-snoc :
    (cs : List Commit) (c : Commit) (xs ys : Bytes)
    → encode_commits cs ≡ ok xs
    → encode_offset_record c ≡ ok ys
    → encode_commits (cs ++ (c ∷ [])) ≡ ok (xs ++ ys)
unfolding encode_commits ◌▹◌
encode_commits-snoc [] c xs ys e f =
    rw f (ap ok (append-nil ys ∙ ap (λ t. t ++ ys) (ok-injective e)))
encode_commits-snoc (k ∷ cs) c xs ys e f =
    let (vs, ws, ev, ew, split) = ▹-eq-ok _ _ e in
    rw (ev, encode_commits-snoc cs c ws ys ew f, split) (ap ok (sym (append_assoc vs ws ys)))

module _ (c : Commit) (b : Broker) (d : Durable b) (fits : IsInt64 c) where
  replayed :
      (n t : Bytes) (p : ℤ)
      → set_offset (committed b) c n t p ≡ replay_from no_offsets (d.commits ++ (c ∷ [])) n t p
  unfolding set_offset replay_from
  replayed n t p =
      ap (λ x. if is_key c n t p then some c.offset else x) (d.same n t p)
      ∙ sym (ap (λ m. m n t p) (foldl-append set_offset no_offsets d.commits (c ∷ [])))

  accepted-Durable :
      (rec : Bytes)
      → encode_offset_record c ≡ ok rec
      → Durable (Commits.committed_broker c (record { file = b.offset_store.file ++ rec }) b).0
  accepted-Durable rec e = record {
    commits = d.commits ++ (c ∷ []);
    small_offsets = All-append IsInt64 d.commits (c ∷ []) d.small_offsets (fits, tt);
    written =
        unfold Commits.committed_broker in
        encode_commits-snoc d.commits c b.offset_store.file rec d.written e;
    same = λ n t p. accepted-sets c b _ n t p ∙ replayed n t p;
  }

  refused-Durable : Durable (Commits.with_group c.group (Commits.prepared_group c b) b)
  refused-Durable = record {
    commits = d.commits;
    small_offsets = d.small_offsets;
    written = unfold Commits.with_group in d.written;
    same = λ n t p. refused-same c b n t p ∙ d.same n t p;
  }

  refused_regression :
      Commits.regresses
          (find int_key c.partition (Commits.topic_offsets c.topic (Commits.prepared_group c b)))
          c.offset
        ≡ true
      → (Commits.commit_offset c b).0 ≡ Commits.with_group c.group (Commits.prepared_group c b) b
  unfolding Commits.commit_offset
  refused_regression y = rw y refl

  persisted :
      (w : Writer)
      → encode_offset_record c ≡ w
      → Commits.regresses
          (find int_key c.partition (Commits.topic_offsets c.topic (Commits.prepared_group c b)))
          c.offset
        ≡ false
      → Durable (Commits.commit_offset c b).0
  unfolding Commits.commit_offset append_commit append_bytes
  persisted (ok rec) e n = rw (n, e, append_bytes) (accepted-Durable rec e)
  persisted (err x) e n = rw (n, e, append_bytes) refused-Durable

  commit_offset-Durable : Durable (Commits.commit_offset c b).0
  commit_offset-Durable =
      elim (Bool-cases (
        Commits.regresses
          (find int_key c.partition (Commits.topic_offsets c.topic (Commits.prepared_group c b)))
          c.offset)) [
            | inl y ↦ rw (refused_regression y) refused-Durable
            | inr n ↦ persisted (encode_offset_record c) refl n
          ]

nothing_committed :
    (b : Broker)
    → b.groups ≡ []
    → (n t : Bytes) (p : ℤ) → committed b n t p ≡ replay_from no_offsets [] n t p
unfolding Commits.fetch_committed Commits.fetch_group find replay_from
nothing_committed b e n t p =
    ap (λ gs. as_option (Commits.fetch_group t p (find string_key n gs))) e

-- Calls of CommitOffset in turn, whatever they return.
unfoldable pub commit_calls : List Commit → Broker → Broker
commit_calls [] b = b
commit_calls (c ∷ cs) b = commit_calls cs (Commits.commit_offset c b).0

commit_calls-Durable :
    (cs : List Commit) (b : Broker) → Durable b → All IsInt64 cs → Durable (commit_calls cs b)
unfolding commit_calls
commit_calls-Durable [] b d h = d
commit_calls-Durable (c ∷ cs) b d (hc, h) =
    commit_calls-Durable cs (Commits.commit_offset c b).0 (commit_offset-Durable c b d hc) h

-- The offsets of the consumer groups survive a restart. After any calls of CommitOffset with int64
-- offsets on a broker with no groups and an empty offset log, those that are refused included, while no
-- snapshot is compacted and the log is below 2 GiB: Recover succeeds and changes nothing in the file, and for each group, topic
-- and partition it returns the offset that FetchCommitted returned before the restart, and none where
-- that returned an error.
pub commit_calls-recovered :
    (cs : List Commit) (b : Broker)
    → b.groups ≡ []
    → b.offset_store.file ≡ []
    → All IsInt64 cs
    → length (commit_calls cs b).offset_store.file < 2 ^ 31
    → (m : Offsets) × (recover (commit_calls cs b).offset_store
        ≡ some (m, (commit_calls cs b).offset_store))
      × ((n t : Bytes) (p : ℤ)
          → m n t p ≡ as_option (Commits.fetch_committed n t p (commit_calls cs b)))
commit_calls-recovered cs b no_groups no_file h small =
    let d = commit_calls-Durable cs b fresh h in
    let file = (commit_calls cs b).offset_store.file in
    let found =
      recover-Stops d.commits file [] d.small_offsets d.written small
        (unfold next_frame in no_frame refl) in
    (
      replay_from no_offsets d.commits,
      subst
          (λ f.
            recover (record { file = f })
            ≡ some (replay_from no_offsets d.commits, (commit_calls cs b).offset_store))
          (append-nil file) found,
      λ n t p. sym (d.same n t p),
    )
  where
    fresh : Durable b
    fresh = record {
      commits = [];
      small_offsets = tt;
      written = unfold encode_commits in ap ok (sym no_file);
      same = λ n t p. nothing_committed b no_groups n t p;
    }
