-- ===== src/Session/Ftp/Passive.antt =====
-- What a client reads out of the reply to PASV.
use in_memory_object_storage.Common.{
  ℕ, ◌+◌, ◌*◌, ◌/◌, ◌%◌, ◌^◌, ◌<◌, ◌≡◌, ◌≢◌, ◌∙◌, refl, ap, sym, true, List, [], ◌∷◌, ◌++◌,
  append_assoc, some, arith, ok, Outcome, ◌>>=◌, append-nil, map, All,
}
use in_memory_object_storage.Common.Text.{Bytes, codes, Lacks}
use in_memory_object_storage.Common.Decimal.{
  to_string, read_digits, read_digits-to_string, to_string-Lacks,
}
use in_memory_object_storage.UserDatabase.{User}
use in_memory_object_storage.Utils.Split.{split}
use in_memory_object_storage.Utils.Split.Tokens.{join}
use in_memory_object_storage.Utils.Split.Lacking.{split-join-Lacks}
use in_memory_object_storage.Protocol.FtpRequest.{FtpParser}
use in_memory_object_storage.Protocol.FtpResponse.{entering_passive_mode, with_text, serialize}
use in_memory_object_storage.Session.{Session, Network, reply}
use in_memory_object_storage.Session.Ftp.{endpoint_text, append_address, handle_pasv}
use in_memory_object_storage.Session.Ftp.Answers.{append-ne}

-- Numbers between commas.
listed : List ℕ → Bytes
listed l = join (codes ",") (map to_string l)

listed-cons :
    (m n : ℕ) (l : List ℕ) → listed (m ∷ n ∷ l) ≡ to_string m ++ (codes "," ++ listed (n ∷ l))
unfolding listed join
listed-cons m n l = refl

listed-cons_append :
    (m : ℕ) (address : List ℕ) (n : ℕ) (l : List ℕ)
    → listed (m ∷ (address ++ n ∷ l)) ≡ to_string m ++ (codes "," ++ listed (address ++ n ∷ l))
listed-cons_append m [] n l = listed-cons m n l
listed-cons_append m (k ∷ address) n l = listed-cons m k (address ++ n ∷ l)

append_address-listed :
    (address : List ℕ) (n : ℕ) (l : List ℕ) (text : Bytes)
    → append_address address text ++ listed (n ∷ l) ≡ text ++ listed (address ++ n ∷ l)
unfolding append_address
append_address-listed [] n l text = refl
append_address-listed (byte ∷ address) n l text =
    append_address-listed address n l (text ++ to_string byte ++ codes ",")
    ∙ append_assoc (text ++ to_string byte) (codes ",") (listed (address ++ n ∷ l))
    ∙ append_assoc text (to_string byte) (codes "," ++ listed (address ++ n ∷ l))
    ∙ ap (λ r. text ++ r) (sym (listed-cons_append byte address n l))

endpoint_text-listed :
    (address : List ℕ) (port : ℕ)
    → endpoint_text address port
      ≡ codes "(" ++ listed (address ++ port / 2 ^ 8 % 256 ∷ port % 256 ∷ []) ++ codes ")"
unfolding endpoint_text listed join
endpoint_text-listed address port =
    let h = to_string (port / 2 ^ 8 % 256) in
    let l = to_string (port % 256) in
    let start = append_address address (codes "(") in
    ap (λ r. r ++ codes ")")
      (append_assoc (start ++ h) (codes ",") l
        ∙ append_assoc start h (codes "," ++ l)
        ∙ append_address-listed address (port / 2 ^ 8 % 256) (port % 256 ∷ []) (codes "("))

-- The numbers that a client reads.
unfoldable pub read_listed : Bytes → Outcome (List ℕ)
read_listed text = do fields ← split text (codes ","); ok (map (read_digits 0) fields)

read_digits-whole : (n : ℕ) → read_digits 0 (to_string n) ≡ n
unfolding read_digits
read_digits-whole n =
    ap (read_digits 0) (sym (append-nil (to_string n))) ∙ read_digits-to_string n []

map-read : (l : List ℕ) → map (read_digits 0) (map to_string l) ≡ l
map-read [] = refl
map-read (n ∷ l) = rw (read_digits-whole n, map-read l) refl

All-Lacks : (l : List ℕ) → All (Lacks b',') (map to_string l)
All-Lacks [] = tt
All-Lacks (n ∷ l) = (to_string-Lacks b',' n (omega arith), All-Lacks l)

listed-ne : (address : List ℕ) (n m : ℕ) → listed (address ++ n ∷ m ∷ []) ≢ []
unfolding listed join
listed-ne [] n m = append-ne (to_string n) (to_string m) b','
listed-ne (k ∷ []) n m = append-ne (to_string k) (listed (n ∷ m ∷ [])) b','
listed-ne (k ∷ j ∷ address) n m =
    append-ne (to_string k) (listed (j ∷ (address ++ n ∷ m ∷ []))) b','

read_listed-listed :
    (address : List ℕ) (n m : ℕ)
    → read_listed (listed (address ++ n ∷ m ∷ [])) ≡ ok (address ++ n ∷ m ∷ [])
unfolding read_listed listed
read_listed-listed address n m =
    let l = address ++ n ∷ m ∷ [] in
    rw
      (split-join-Lacks b',' [] (map to_string l) (listed-ne address n m) (All-Lacks l), map-read l)
      refl

-- PASV of a logged-in user, when the data acceptor can be set up, the socket of the session has
-- an IPv4 address and the port of the acceptor has 16 bits, replies with fields between
-- parentheses; split at commas and read as numbers they are the bytes of the address and two
-- numbers below 256 that make up the port.
pub handle_pasv-reads :
    (net : Network) (parser : FtpParser) (user : User) (address : List ℕ) (s : Session)
    → s.logged_in_user ≡ some user
    → (net.opens ≡ true) × (net.binds ≡ true) × (net.listens ≡ true)
    → net.address ≡ some address
    → net.port < 2 ^ 16
    → (fields : Bytes) × (high : ℕ) × (low : ℕ) × (s' : Session) × (handle_pasv net parser s
        ≡ ok s')
      × (s'.posted
          ≡ s.posted
            ++ serialize (
                with_text entering_passive_mode
                  (codes "Entering passive mode " ++ codes "(" ++ fields ++ codes ")"))
              ∷ [])
      × (read_listed fields ≡ ok (address ++ high ∷ low ∷ []))
      × (high < 256)
      × (low < 256)
      × (high * 256 + low ≡ net.port)
unfolding handle_pasv reply
handle_pasv-reads net parser user address s l (o, b, i) v p =
    let high = net.port / 2 ^ 8 % 256 in
    let low = net.port % 256 in
    let s' =
      reply entering_passive_mode (codes "Entering passive mode " ++ endpoint_text address net.port)
        (record s { acceptor_open = true }) in
    (
      listed (address ++ high ∷ low ∷ []),
      high,
      low,
      s',
      rw (l, o, b, i, v) refl,
      ap
          (λ t.
            s.posted
            ++ serialize (with_text entering_passive_mode (codes "Entering passive mode " ++ t))
              ∷ [])
          (endpoint_text-listed address net.port),
      read_listed-listed address high low,
      omega arith,
      omega arith,
      omega (arith, p),
    )
