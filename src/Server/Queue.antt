-- ===== src/Server/Queue.antt =====
-- server.go: what becomes of the files that delete tasks name.
use efes.Prelude.{
  ℕ, ◌≡◌, ◌⊎◌, refl, ap, sym, ◌∙◌, Bool, true, false, Option, none, some, List, [], ◌∷◌, not,
  Bool-cases, inl, inr,
}
use efes.Prelude.Int.{ℤ}
use efes.Prelude.Text.{equal_paths, equal_paths-eq, equal_paths_refl}
use efes.Prelude.Members.{In, In-select, In-of_select, either}
use efes.Encoding.Decimal.{parse_int}
use efes.Server.{
  FilePath, vivify, remove_path, delete_fid_on_disk, Event, shutdown, closed, delivered, Reply,
  acked, nacked, ack_failed, nack_failed, unanswered, Handled, Processed, logged, ended, answer,
  handle, process_delete_tasks,
}

negated : (b : Bool) → b ≡ false → not b ≡ true
negated b e = rw e refl

remove_path-gone : (path : FilePath) (disk : List FilePath) → In path (remove_path path disk) → ⊥
unfolding remove_path
remove_path-gone path disk m =
    let test = (In-select (λ p. not (equal_paths p path)) path disk m).1 in
    go (equal_paths path path) (equal_paths_refl path) test
  where
    go : (b : Bool) → b ≡ true → not b ≡ true → ⊥
    go true e h = cc
    go false e h = cc

remove_path-fewer :
    (path p : FilePath) (disk : List FilePath) → In p (remove_path path disk) → In p disk
unfolding remove_path
remove_path-fewer path p disk m = (In-select (λ q. not (equal_paths q path)) p disk m).0

remove_path-others :
    (path p : FilePath) (disk : List FilePath)
    → In p disk
    → (p ≡ path) ⊎ In p (remove_path path disk)
unfolding remove_path
remove_path-others path p disk m = elim (Bool-cases (equal_paths p path)) [
  | inl same ↦ inl (equal_paths-eq p path same)
  | inr other ↦
      inr
        (In-of_select (λ q. not (equal_paths q path)) p disk m (negated (equal_paths p path) other))
]

-- The disk that a consumer leaves, if it starts with a disk and its messages are a log.
pub record IsHandled (disk : List FilePath) (r : Processed) : Type 0 where
  fewer : (p : FilePath) → In p r.disk → In p disk
  -- the file of an acknowledged message is gone
  gone :
      (h : Handled)
      → In h r.log
      → h.reply ≡ acked
      → (fid : ℤ) × (parse_int h.body ≡ some fid) × (In (vivify fid) r.disk → ⊥)
  -- a file that is gone was named by a message
  named :
      (p : FilePath)
      → In p disk
      → In p r.disk
        ⊎ ((h : Handled) × In h r.log
            × ((fid : ℤ) × (parse_int h.body ≡ some fid) × (p ≡ vivify fid)))

-- No message.
nothing-IsHandled :
    (disk : List FilePath) (ok : Bool) → IsHandled disk (record { disk = disk; log = []; ok = ok })
nothing-IsHandled disk ok = record {
  fewer = λ p m. m;
  gone = λ h m e. absurd m;
  named = λ p m. inl m;
}

-- A message that leaves the disk as it is and is not acknowledged, and the rest.
logged-IsHandled :
    (body : List ℕ) (reply : Reply) (disk : List FilePath) (r : Processed)
    → (reply ≡ acked → ⊥)
    → IsHandled disk r
    → IsHandled disk (logged body reply r)
unfolding logged
logged-IsHandled body reply disk r n h = record {
  fewer = h.fewer;
  gone = λ k m e.
      either (λ same. absurd (n (ap (λ t. t.reply) (sym same) ∙ e))) (λ there. h.gone k there e) m;
  named = λ p m. either inl (λ (k, there, rest). inr (k, inr there, rest)) (h.named p m);
}

-- A message whose file is removed.
removed-IsHandled :
    (body : List ℕ) (reply : Reply) (fid : ℤ) (disk : List FilePath) (r : Processed)
    → parse_int body ≡ some fid
    → IsHandled (remove_path (vivify fid) disk) r
    → IsHandled disk (logged body reply r)
unfolding logged
removed-IsHandled body reply fid disk r e h = record {
  fewer = λ p m. remove_path-fewer (vivify fid) p disk (h.fewer p m);
  gone = λ k m acknowledged.
      either
        (λ same. (
          fid,
          ap (λ t. parse_int t.body) same ∙ e,
          λ there. remove_path-gone (vivify fid) disk (h.fewer (vivify fid) there),
        ))
        (λ there. h.gone k there acknowledged) m;
  named = λ p m.
      either (λ same. inr (record { body = body; reply = reply }, inl refl, (fid, e, same)))
        (λ left. either inl (λ (k, there, rest). inr (k, inr there, rest)) (h.named p left))
        (remove_path-others (vivify fid) p disk m);
}

answer-IsHandled :
    (body : List ℕ) (remove_fails reply_fails : Bool) (fid : ℤ) (disk : List FilePath)
    (rest : List FilePath → Processed)
    → parse_int body ≡ some fid
    → ((d : List FilePath) → IsHandled d (rest d))
    → IsHandled disk (answer body reply_fails disk (delete_fid_on_disk remove_fails fid disk) rest)
unfolding answer delete_fid_on_disk ended logged
answer-IsHandled body true true fid disk rest e h =
    logged-IsHandled body nack_failed disk _ (λ e. cc) (nothing-IsHandled disk false)
answer-IsHandled body true false fid disk rest e h =
    logged-IsHandled body nacked disk (rest disk) (λ e. cc) (h disk)
answer-IsHandled body false true fid disk rest e h =
    removed-IsHandled body ack_failed fid disk _ e
      (nothing-IsHandled (remove_path (vivify fid) disk) false)
answer-IsHandled body false false fid disk rest e h =
    removed-IsHandled body acked fid disk (rest (remove_path (vivify fid) disk)) e
      (h (remove_path (vivify fid) disk))

handle-IsHandled :
    (body : List ℕ) (remove_fails reply_fails : Bool) (o : Option ℤ) (disk : List FilePath)
    (rest : List FilePath → Processed)
    → parse_int body ≡ o
    → ((d : List FilePath) → IsHandled d (rest d))
    → IsHandled disk (handle body remove_fails reply_fails o disk rest)
unfolding handle
handle-IsHandled body remove_fails reply_fails none disk rest e h =
    logged-IsHandled body unanswered disk (rest disk) (λ e. cc) (h disk)
handle-IsHandled body remove_fails reply_fails (some fid) disk rest e h =
    answer-IsHandled body remove_fails reply_fails fid disk rest e h

-- Whatever messages come and whatever fails, the consumer of delete tasks acknowledges a message
-- only if the file that it names is not on the disk at the end, and a file that has gone was named by
-- a message; no file appears.
pub process_delete_tasks-IsHandled :
    (events : List Event) (disk : List FilePath) → IsHandled disk (process_delete_tasks events disk)
unfolding process_delete_tasks
process_delete_tasks-IsHandled [] disk = nothing-IsHandled disk true
process_delete_tasks-IsHandled (shutdown ∷ events) disk = nothing-IsHandled disk true
process_delete_tasks-IsHandled (closed ∷ events) disk = nothing-IsHandled disk false
process_delete_tasks-IsHandled (delivered body remove_fails reply_fails ∷ events) disk =
    handle-IsHandled body remove_fails reply_fails (parse_int body) disk
      (process_delete_tasks events) refl (process_delete_tasks-IsHandled events)
