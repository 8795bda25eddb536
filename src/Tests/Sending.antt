-- ===== src/Tests/Sending.antt =====
-- An upload (write.go) to the receiver of this library.
use efes.Prelude.{ℕ, zero, suc, ◌≡◌, refl, arith, true, false, none, some, List, [], ◌∷◌}
use efes.Receiver.Disk.{Slot, no_faults}
use efes.Receiver.Copy.{whole}
use efes.Receiver.Http.{Request, serve_http}
use efes.Client.Requests.{IsRefusal}
use efes.Client.{new_sha1_file}
use efes.Client.Reading.{new_sha1_file-Follows}
use efes.Client.Send.{Config, Exchange, Upload, send, send_file}
use efes.Client.Safety.{UploadSafe, send_file-Safe}
use efes.Client.Enough.{send-ends}

abbrev abc : List ℕ
abc = 97 ∷ 98 ∷ 99 ∷ []

-- Two bytes in a request, and each body in one read.
abbrev config : Config
config = record {
  chunk_size = 2;
  buffer = 1;
  drainer = false;
  fid = none;
  cut = λ p. whole p ∷ [];
  takes = λ i. 2;
  gives_up = λ calls. false;
}

-- The receiver, which loses its first answer.
abbrev lossy : Exchange
lossy calls request s =
    let served = serve_http none no_faults request s in
    (elim calls [ zero ↦ none | suc n ↦ some served.0 ], served.1)

lossy-reads : (i : ℕ) (q : Request) (s : Slot) → config.takes i ≡ 0 → IsRefusal (lossy i q s).0
lossy-reads i q s z = absurd (omega (arith, z))

abbrev nothing : Slot
nothing = record { dir = true; file = none; info = none }

send_file-Safe_example :
    UploadSafe lossy config abc
      (omega arith)
      (omega arith)
      lossy-reads
      (send_file lossy config 9 3 (some 3) abc nothing)
send_file-Safe_example =
    send_file-Safe lossy config abc (omega arith) (omega arith) lossy-reads 9 3 (some 3) nothing
      refl

abbrev before : Upload
before = record { file = new_sha1_file abc; slot = nothing; calls = 0 }

before-content : before.file.content ≡ abc
unfolding new_sha1_file
before-content = refl

before-position : before.file.position ≡ 0
unfolding new_sha1_file
before-position = refl

send-ends_example : send lossy config 4 0 (some 3) before ≡ send lossy config 9 0 (some 3) before
send-ends_example =
    send-ends lossy config abc (omega arith) (omega arith) lossy-reads 4 9 0 (some 3) before
      (omega arith) (omega arith) (new_sha1_file-Follows abc) before-content before-position
