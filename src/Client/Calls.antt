-- ===== src/Client/Calls.antt =====
-- client.go and read.go: a call of the tracker, whether a key exists, and reading a file.
use efes.Prelude.{
  ℕ, ◌≡◌, refl, Bool, true, false, Option, none, some, List, ◌==◌, if◌then◌else◌, take, Bool-cases,
  inl, inr,
}
use efes.Prelude.Int.{ℤ, negsuc}
use efes.Encoding.Decimal.{parse_int}
use efes.Client.Send.{SendError, client_error, other_error, check_status}

-- What a call comes to.
pub data Called (A : Type 0) : Type 0 where
  got : A → Called A
  fails : SendError → Called A

-- json.Decode
unfoldable pub decode_body : {A : Type 0} → Option A → Called A
decode_body none = fails other_error
decode_body (some a) = got a

unfoldable pub unless_error : {A : Type 0} → Option SendError → Called A → Called A
unless_error none answer = answer
unless_error (some e) answer = fails e

-- `request` with a response: the status, if there was an answer, and what its body decodes to.
unfoldable pub request : {A : Type 0} → Option ℕ → Option A → Called A
unfolding unless_error decode_body check_status
request none body = fails other_error
request (some status) body = unless_error (check_status status) (decode_body body)

-- Client.Delete: `request` without a response, and no error.
unfoldable pub delete_key : Option ℕ → Option SendError
unfolding check_status
delete_key none = some other_error
delete_key (some status) = check_status status

-- Client.Exists, over `getPath`: `none` is an error.
unfoldable pub key_exists : {A : Type 0} → Called A → Option Bool
key_exists (got path) = some true
key_exists (fails other_error) = none
key_exists (fails (client_error code)) = if code == 404 then some false else none

unfoldable pub or_unknown : Option ℤ → ℤ
or_unknown none = negsuc 0
or_unknown (some n) = n

-- getContentLength: the header, which is empty if it is not there; -1 if it is no number.
unfoldable pub get_content_length : List ℕ → ℤ
unfolding or_unknown parse_int
get_content_length header = or_unknown (parse_int header)

-- Calls that fail: os.Create, the copy after some bytes, Close.
pub record ReadFaults : Type 0 where
  pub create : Bool
  pub copy : Option ℕ
  pub close : Bool

-- Whether Read returned no error, and the local file.
pub record ReadKey : Type 0 where
  pub ok : Bool
  pub file : Option (List ℕ)

-- From os.Create on; `body` is the body of the response.
unfoldable pub save_body : ReadFaults → List ℕ → Option (List ℕ) → ReadKey
save_body f body file = if f.create then record { ok = false; file = file } else elim f.copy [
  | none ↦ record { ok = if f.close then false else true; file = some body }
  | some n ↦ record { ok = false; file = some (take n body) }
]

-- `checkResponseError` in front of it.
unfoldable pub save_unless : Option SendError → ReadFaults → List ℕ → Option (List ℕ) → ReadKey
unfolding save_body
save_unless none f body file = save_body f body file
save_unless (some e) f body file = record { ok = false; file = file }

-- Client.Read into a local file: the answer of `getPath`, and that of the server.
unfoldable pub read_key :
    {A : Type 0} → ReadFaults → Called A → Option ℕ → List ℕ → Option (List ℕ) → ReadKey
unfolding save_unless check_status
read_key f (fails e) status body file = record { ok = false; file = file }
read_key f (got path) none body file = record { ok = false; file = file }
read_key f (got path) (some status) body file = save_unless (check_status status) f body file

abbrev saved : Option ℕ → Bool → List ℕ → Option (List ℕ) → ReadFaults → ReadKey
saved o b body file f = if b then record { ok = false; file = file } else elim o [
  | none ↦ record { ok = if f.close then false else true; file = some body }
  | some n ↦ record { ok = false; file = some (take n body) }
]

save_body-whole :
    (f : ReadFaults) (body : List ℕ) (file : Option (List ℕ))
    → (save_body f body file).ok ≡ true
    → (save_body f body file).file ≡ some body
unfolding save_body
save_body-whole f body file h = elim (Bool-cases f.create) [
  | inl failed ↦ cc (rw failed at h)
  | inr created ↦ go f.copy f.create created h
]
  where
    go :
        (o : Option ℕ) (b : Bool)
        → b ≡ false
        → (saved o b body file f).ok ≡ true
        → (saved o b body file f).file ≡ some body
    go none true e k = cc
    go (some n) true e k = cc
    go none false e k = refl
    go (some n) false e k = cc

-- A Read that returns no error has the whole body in the local file.
pub read_key-whole :
    {A : Type 0} (f : ReadFaults) (path : Called A) (status : Option ℕ) (body : List ℕ)
    (file : Option (List ℕ))
    → (read_key f path status body file).ok ≡ true
    → (read_key f path status body file).file ≡ some body
unfolding read_key
read_key-whole f (fails e) status body file h = cc
read_key-whole f (got path) none body file h = cc
read_key-whole f (got path) (some status) body file h = go (check_status status) h
  where
    go :
        (o : Option SendError)
        → (save_unless o f body file).ok ≡ true
        → (save_unless o f body file).file ≡ some body
    go none k =
        let saved_ok : (save_body f body file).ok ≡ true = unfold save_unless in k in
        unfold save_unless in save_body-whole f body file saved_ok
    go (some e) k = let no : false ≡ true = unfold save_unless in k in cc
