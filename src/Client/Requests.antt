-- ===== src/Client/Requests.antt =====
-- write.go: a request leaves the file that is read as it is.
use efes.Prelude.{
  ℕ, suc, ◌≤◌, ◌≡◌, refl, sym, subst, true, false, Option, none, some, List, ltb, length, take,
}
use efes.Receiver.Disk.{Slot}
use efes.Receiver.Http.{Response, response, dropped}
use efes.Sha1.Buffer.{Represents}
use efes.Client.{Sha1File, seek}
use efes.Client.Reading.{Follows}
use efes.Client.Send.{
  Checksums, SendError, Upload, Sent, sent, failed, crashed, check_status, sent_unless,
  checksums_from, checked,
}

-- The digest is that of a front part of the file; the underlying reader may stand elsewhere.
pub record Digests (content : List ℕ) (f : Sha1File) : Type 0 where
  pub same_content : f.content ≡ content
  pub digested : Represents f.digest (take f.calculated content)
  pub behind : f.position ≤ f.calculated
  pub within : f.calculated ≤ length content

-- The whole file has been digested.
pub record IsFull (content : List ℕ) (f : Sha1File) : Type 0 where
  pub digests : Digests content f
  pub all : f.calculated ≡ length content

pub Follows-Digests :
    (content : List ℕ) (f : Sha1File) → Follows f → f.content ≡ content → Digests content f
Follows-Digests content f h e = record {
  same_content = e;
  digested = subst (λ t. Represents f.digest (take f.calculated t)) e h.digested;
  behind = h.behind;
  within = subst (λ t. f.calculated ≤ length t) e h.within;
}

pub Digests-Follows :
    (content : List ℕ) (f : Sha1File) → Digests content f → f.at ≡ f.position → Follows f
Digests-Follows content f d e = record {
  digested = subst (λ t. Represents f.digest (take f.calculated t)) (sym d.same_content) d.digested;
  behind = d.behind;
  within = subst (λ t. f.calculated ≤ length t) (sym d.same_content) d.within;
  same_place = e;
}

-- A request does not touch the file that is read.
abbrev pub KeepsFile : Sha1File → Sent → Type 0
KeepsFile f (sent sums u) = u.file ≡ f
KeepsFile f (failed e u) = u.file ≡ f
KeepsFile f crashed = ⊥

sent_unless-KeepsFile :
    (o : Option SendError) (sums : Checksums) (u : Upload) → KeepsFile u.file (sent_unless o sums u)
unfolding sent_unless
sent_unless-KeepsFile none sums u = refl
sent_unless-KeepsFile (some e) sums u = refl

pub checked-KeepsFile : (u : Upload) (o : Option Response × Slot) → KeepsFile u.file (checked u o)
unfolding checked
checked-KeepsFile u (none, s) = refl
checked-KeepsFile u (some dropped, s) = refl
checked-KeepsFile u (some (response status offset sums), s) =
    sent_unless-KeepsFile (check_status status) (checksums_from sums)
      (record u { slot = s; calls = suc u.calls })

-- A response that is no success, or none.
abbrev pub IsRefusal : Option Response → Type 0
IsRefusal none = Unit
IsRefusal (some dropped) = Unit
IsRefusal (some (response status offset sums)) = (e : SendError) × (check_status status ≡ some e)

abbrev pub NotSent : Sent → Type 0
NotSent (sent sums u) = ⊥
NotSent (failed e u) = Unit
NotSent crashed = Unit

pub checked-NotSent :
    (u : Upload) (o : Option Response × Slot) → IsRefusal o.0 → NotSent (checked u o)
unfolding checked
checked-NotSent u (none, s) h = tt
checked-NotSent u (some dropped, s) h = tt
checked-NotSent u (some (response status offset sums), s) (e, h) = rw h (unfold sent_unless in tt)

pub seek-forward :
    (f : Sha1File) (n : ℕ) → ltb f.position n ≡ true → seek f n ≡ (record f { at = n }, false)
unfolding seek
seek-forward f n e = rw e refl

pub seek-back :
    (f : Sha1File) (n : ℕ)
    → ltb f.position n ≡ false
    → seek f n ≡ (record f { at = n; position = n }, true)
unfolding seek
seek-back f n e = rw e refl
