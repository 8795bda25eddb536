-- ===== src/Upload/Requests.antt =====
-- write.go and filereceiver.go: what one request leaves behind, whatever becomes of it.
use efes.Prelude.{
  ℕ, zero, suc, ◌+◌, ◌-◌, ◌≤◌, ◌≡◌, ◌⊎◌, refl, Bool, true, false, Option, none, some, List, [],
  ◌++◌, ltb, ◌==◌, if◌then◌else◌, length, take, drop, min, inl, inr, All, All-take, All-drop,
  All-append,
}
use efes.Prelude.Int.{pos, negsuc}
use efes.Encoding.{hex_encode}
use efes.Sha1
use efes.Sha1.Sum.{sha1}
use efes.Crc32.Update.Table.{IsByte}
use efes.Sha1.Digest.{Sha1Digest}
use efes.Receiver.Disk.{Slot}
use efes.Receiver.Http.{Length, Request, Response, response, dropped, Database, serve_http}
use efes.Receiver.Invariant.{IsConsistent, IsWhole}
use efes.Receiver.Invariant.Kept.{Careful}
use efes.Receiver.Serving.{Served, serve_http-Served}
use efes.Client.{
  Sha1File, ReadResult, bytes, missing_data, panicked, digest_new, read, and_then, read_limited,
}
use efes.Client.Send.{
  Checksums, SendError, Upload, Sent, sent, failed, crashed, Offset, at_offset, no_offset,
  check_status, checksums_from, sent_unless, checked, offset_of,
}
use efes.Upload.{Fate, answered, unanswered, lost, meet}

-- The sums are empty, or the SHA-1 among them is that of the front part of a finished file.
abbrev pub HasSums : Checksums → Slot → Type 0
HasSums sums s =
    (sums.sha1 ≡ [])
    ⊎ ((file : List ℕ) × ((at : ℕ) × (s.file ≡ some file)
          × (s.info ≡ none)
          × (at ≤ length file)
          × (sums.sha1 ≡ hex_encode (sha1 (take at file)))))

-- The two files on the server fit each other, and the client reads bytes.
pub record IsGood (u : Upload) : Type 0 where
  pub consistent : IsConsistent u.slot
  pub readable : All IsByte u.file.content

abbrev pub SentGood : Sent → Type 0
SentGood (sent sums u) = IsGood u × HasSums sums u.slot
SentGood (failed e u) = IsGood u
SentGood crashed = Unit

-- A fate with no failure inside `createFile` after the truncation, and with whole writes.
abbrev pub IsFair : Fate → Type 0
IsFair (answered f) = Careful f
IsFair (unanswered body f) = Careful f × IsWhole body
IsFair lost = Unit

Served-IsConsistent : (l : Length) (o : Response × Slot) → Served l o → IsConsistent o.1
Served-IsConsistent l (response status offset none, s) h = h
Served-IsConsistent l (response status offset (some sums), s) h = h.0
Served-IsConsistent l (dropped, s) h = absurd h

sent_unless-Good :
    (o : Option SendError) (sums : Checksums) (u : Upload)
    → IsGood u
    → HasSums sums u.slot
    → SentGood (sent_unless o sums u)
unfolding sent_unless
sent_unless-Good none sums u g h = (g, h)
sent_unless-Good (some e) sums u g h = g

checked-Good :
    (l : Length) (u : Upload) (o : Response × Slot)
    → Served l o
    → All IsByte u.file.content
    → SentGood (checked u (some o.0, o.1))
unfolding checked
checked-Good l u (response status offset none, s) h b =
    sent_unless-Good (check_status status) (checksums_from none)
      (record u { slot = s; calls = suc u.calls }) (record { consistent = h; readable = b })
      (inl (unfold checksums_from in refl))
checked-Good l u (response status offset (some sums), s) (h, done) b =
    sent_unless-Good (check_status status) (checksums_from (some sums))
      (record u { slot = s; calls = suc u.calls }) (record { consistent = h; readable = b })
      (unfold checksums_from in
        inr (done.file, (done.at, done.stored, done.info_gone, done.within, done.sha1_is)))
checked-Good l u (dropped, s) h b = absurd h

-- A PATCH request, whatever becomes of it.
pub patched-Good :
    (fate : Fate) (db : Database) (q : Request) (u : Upload)
    → IsFair fate
    → IsWhole q.body
    → IsGood u
    → SentGood (checked u (meet fate db q u.slot))
unfolding meet
patched-Good (answered f) db q u fair w g =
    checked-Good q.length u (serve_http db f q u.slot)
      (serve_http-Served db f q u.slot fair w g.consistent) g.readable
patched-Good (unanswered body f) db q u fair w g =
    unfold checked in
    record {
      consistent =
          Served-IsConsistent q.length (serve_http db f (record q { body = body }) u.slot)
            (serve_http-Served db f (record q { body = body }) u.slot fair.0 fair.1 g.consistent);
      readable = g.readable;
    }
patched-Good lost db q u fair w g =
    unfold checked in record { consistent = g.consistent; readable = g.readable }

abbrev pub OffsetGood : Offset → Type 0
OffsetGood (at_offset n u) = IsGood u
OffsetGood (no_offset u) = IsGood u

offset_of-Good :
    (u : Upload) (o : Option Response × Slot)
    → IsConsistent o.1
    → All IsByte u.file.content
    → OffsetGood (offset_of u o)
unfolding offset_of
offset_of-Good u (some (response status (some (pos n)) sums), s) h b = record {
  consistent = h;
  readable = b;
}
offset_of-Good u (some (response status (some (negsuc n)) sums), s) h b = record {
  consistent = h;
  readable = b;
}
offset_of-Good u (some (response status none sums), s) h b = record { consistent = h; readable = b }
offset_of-Good u (some dropped, s) h b = record { consistent = h; readable = b }
offset_of-Good u (none, s) h b = record { consistent = h; readable = b }

meet-IsConsistent :
    (fate : Fate) (db : Database) (q : Request) (s : Slot)
    → IsFair fate
    → IsWhole q.body
    → IsConsistent s
    → IsConsistent (meet fate db q s).1
unfolding meet
meet-IsConsistent (answered f) db q s fair w h =
    Served-IsConsistent q.length (serve_http db f q s) (serve_http-Served db f q s fair w h)
meet-IsConsistent (unanswered body f) db q s fair w h =
    Served-IsConsistent q.length (serve_http db f (record q { body = body }) s)
      (serve_http-Served db f (record q { body = body }) s fair.0 fair.1 h)
meet-IsConsistent lost db q s fair w h = h

-- A HEAD request.
pub asked-Good :
    (fate : Fate) (db : Database) (q : Request) (u : Upload)
    → IsFair fate
    → IsWhole q.body
    → IsGood u
    → OffsetGood (offset_of u (meet fate db q u.slot))
asked-Good fate db q u fair w g =
    offset_of-Good u (meet fate db q u.slot)
      (meet-IsConsistent fate db q u.slot fair w g.consistent) g.readable

-- What is read from a file of bytes are bytes, and the file stays one.
abbrev pub ReadBytes : ReadResult → Type 0
ReadBytes (bytes p g) = All IsByte p × All IsByte g.content
ReadBytes missing_data = Unit
ReadBytes panicked = Unit

read-ReadBytes : (f : Sha1File) (n : ℕ) → All IsByte f.content → ReadBytes (read f n)
unfolding read digest_new
read-ReadBytes f n b =
    go (ltb f.calculated f.position) (ltb f.calculated (f.position + length p))
      (Sha1.Digest.write f.digest (drop (f.calculated - f.position) p))
  where
    p : List ℕ
    p = take n (drop f.at f.content)

    p-IsByte : All IsByte p
    p-IsByte = All-take IsByte n (drop f.at f.content) (All-drop IsByte f.at f.content b)

    moved : Sha1File
    moved = record f { at = f.at + length p; position = f.position + length p }

    go :
        (a c : Bool) (o : Option Sha1Digest)
        → ReadBytes (
            if a
            then missing_data
            else if c
            then (elim o [
              | none ↦ panicked
              | some digest ↦ bytes p (record moved {
                digest = digest;
                calculated = f.calculated + length (drop (f.calculated - f.position) p);
              })
            ])
            else bytes p moved)
    go true c o = tt
    go false true none = tt
    go false true (some d) = (p-IsByte, b)
    go false false o = (p-IsByte, b)

and_then-ReadBytes :
    (p : List ℕ) (k : Sha1File → ReadResult) (g : Sha1File)
    → All IsByte p
    → ReadBytes (k g)
    → ReadBytes (and_then p k g)
unfolding and_then
and_then-ReadBytes p k g h r = go (k g) r
  where
    go :
        (o : ReadResult)
        → ReadBytes o
        → ReadBytes (elim o [
          | bytes q g ↦ bytes (p ++ q) g
          | missing_data ↦ missing_data
          | panicked ↦ panicked
        ])
    go (bytes q g) (hq, b) = (All-append IsByte p q h hq, b)
    go missing_data r = tt
    go panicked r = tt

pub read_limited-ReadBytes :
    (buffer fuel limit : ℕ) (f : Sha1File)
    → All IsByte f.content
    → ReadBytes (read_limited buffer fuel limit f)
unfolding read_limited
read_limited-ReadBytes buffer zero limit f b = tt
read_limited-ReadBytes buffer (suc fuel) limit f b =
    go (limit == 0) (read f (min buffer limit)) (read-ReadBytes f (min buffer limit) b)
      (λ k g h. read_limited-ReadBytes buffer fuel k g h)
  where
    next :
        (p : List ℕ) (g : Sha1File) (e : Bool)
        → All IsByte p
        → ReadBytes (read_limited buffer fuel (limit - length p) g)
        → All IsByte g.content
        → ReadBytes (elim e [
          | true ↦ bytes [] g
          | false ↦ and_then p (read_limited buffer fuel (limit - length p)) g
        ])
    next p g true h r b = (tt, b)
    next p g false h r b = and_then-ReadBytes p (read_limited buffer fuel (limit - length p)) g h r

    go :
        (e : Bool) (o : ReadResult)
        → ReadBytes o
        → ((k : ℕ) (g : Sha1File) → All IsByte g.content → ReadBytes (read_limited buffer fuel k g))
        → ReadBytes (elim e [
          | true ↦ bytes [] f
          | false ↦ elim o [
            | missing_data ↦ missing_data
            | panicked ↦ panicked
            | bytes p g ↦ elim (length p == 0) [
              | true ↦ bytes [] g
              | false ↦ and_then p (read_limited buffer fuel (limit - length p)) g
            ]
          ]
        ])
    go true o r rest = (tt, b)
    go false missing_data r rest = tt
    go false panicked r rest = tt
    go false (bytes p g) (h, b') rest = next p g (length p == 0) h (rest (limit - length p) g b') b'
