-- ===== src/Application/Starting.antt =====
-- What the command line makes of the server.
use in_memory_object_storage.Common.{
  false, ℕ, ◌≢◌, ◌<◌, ◌%◌, ◌^◌, ◌≡◌, ◌∙◌, refl, sym, ap, true, [], ◌∷◌, ◌++◌, append-nil, none,
  some, arith, ok, if◌then◌else◌,
}
use in_memory_object_storage.Common.Text.{Bytes, codes}
use in_memory_object_storage.Common.Decimal.{
  to_string, read_digits, read_digits-stop, is_digit, to_string-Lacks,
}
use in_memory_object_storage.Common.Dict.{lookup, assign}
use mathlib.Core.List.{Nodup-nil}
use in_memory_object_storage.UserDatabase.{verify, is_reserved, add}
use in_memory_object_storage.Utils.Split.{split}
use in_memory_object_storage.Utils.Split.Tokens.{join}
use in_memory_object_storage.Utils.Split.Lacking.{split-join-Lacks}
use in_memory_object_storage.Protocol.HttpRequest.{to_size}
use in_memory_object_storage.Protocol.HttpRequest.Atoi.{ℤ, pos, atoi}
use in_memory_object_storage.Protocol.HttpRequest.Atoi.RoundTrip.{atoi-to_string}
use in_memory_object_storage.Session.Ftp.Answers.{append-ne}
use in_memory_object_storage.Server.{ObjectStorage, AcceptorResults, start, await_connection}
use in_memory_object_storage.Server.Lifecycle.{IsOpen, start_iff}
use in_memory_object_storage.Server.Serving.{IsServing}
use in_memory_object_storage.Application.{main, configured, text_from, to_uint16}

unfoldable pub range_text : ℕ → ℕ → Bytes
range_text lo hi = join (codes "-") (to_string lo ∷ to_string hi ∷ [])

atoi-whole : (n : ℕ) → n < 2 ^ 31 → atoi (to_string n) ≡ ok (pos n)
unfolding read_digits
atoi-whole n h = ap atoi (sym (append-nil (to_string n))) ∙ atoi-to_string n [] h refl

atoi-first : (lo hi : ℕ) → lo < 2 ^ 31 → atoi (range_text lo hi) ≡ ok (pos lo)
unfolding range_text join is_digit
atoi-first lo hi h =
    atoi-to_string lo (codes "-" ++ to_string hi) h (read_digits-stop lo b'-' (to_string hi) refl)

split-range :
    (lo hi : ℕ) → split (range_text lo hi) (codes "-") ≡ ok (to_string lo ∷ to_string hi ∷ [])
unfolding range_text join
split-range lo hi =
    split-join-Lacks b'-' [] (to_string lo ∷ to_string hi ∷ [])
      (append-ne (to_string lo) (to_string hi) b'-')
      (to_string-Lacks b'-' lo (omega arith), (to_string-Lacks b'-' hi (omega arith), tt))

main-start :
    (r : AcceptorResults) (program address auth : Bytes) (port threads lo hi : ℕ)
    → port < 2 ^ 31
    → threads < 2 ^ 31
    → lo < 2 ^ 31
    → hi < 2 ^ 31
    → main r (program ∷ address ∷ to_string port ∷ to_string threads ∷ auth ∷ range_text lo hi ∷ [])
      ≡ (let (started, o) =
            start r threads (configured address (pos port) auth (pos lo) (pos hi)) in
          ok (if started then some o else none))
unfolding main text_from range_text join to_size
main-start r program address auth port threads lo hi p t l h =
    rw
      (
        atoi-whole port p,
        atoi-whole threads t,
        split-range lo hi,
        atoi-first lo hi l,
        atoi-whole hi h,
      )
      refl

-- The server that has started.
configured-IsServing :
    (address auth : Bytes) (port lo hi : ℤ) (threads : ℕ)
    → let o = configured address port auth lo hi in
      IsServing
        (record (await_connection (record o { acceptor_open = true })) { workers = threads })
unfolding configured await_connection to_uint16
configured-IsServing address auth port lo hi threads = record {
  store = Nodup-nil;
  sound = tt;
  fresh = ((_, _, _, refl), tt);
}

verify-Nord :
    (address auth : Bytes) (port lo hi : ℤ)
    → verify
        (configured address port auth lo hi).users
        (record { username = codes "Nord"; password = codes "VPN" })
      ≡ true
unfolding configured verify is_reserved lookup add assign
verify-Nord address auth port lo hi = refl

-- From a command line whose port, thread count and bounds of the FTP ports are printed numbers
-- below 2^31, the thread count not zero and the lower bound below the upper one modulo 2^16, when
-- the network layer succeeds, the program runs a server of which the invariant of the server
-- holds, with that many threads, the port and the bounds modulo 2^16, and the user Nord.
pub main-IsServing :
    (r : AcceptorResults) (program address auth : Bytes) (port threads lo hi : ℕ)
    → IsOpen r
    → port < 2 ^ 31
    → threads ≢ 0
    → threads < 2 ^ 31
    → lo < 2 ^ 31
    → hi < 2 ^ 31
    → lo % 2 ^ 16 < hi % 2 ^ 16
    → (o : ObjectStorage) × (main r
          (program ∷ address ∷ to_string port ∷ to_string threads ∷ auth ∷ range_text lo hi ∷ [])
        ≡ ok (some o))
      × IsServing o
      × (o.workers ≡ threads)
      × (o.port ≡ port % 2 ^ 16)
      × (o.ftp_port_range ≡ record { min_port = lo % 2 ^ 16; max_port = hi % 2 ^ 16 })
      × (verify o.users (record { username = codes "Nord"; password = codes "VPN" }) ≡ true)
unfolding configured await_connection to_uint16
main-IsServing r program address auth port threads lo hi opened p n t l h b =
    let o = configured address (pos port) auth (pos lo) (pos hi) in
    let closed : o.acceptor_open ≡ false = refl in
    let (iff, success) = start_iff r threads o closed in
    let started : (start r threads o).0 ≡ true = iff.1 (n, b, opened) in
    (
      record (await_connection (record o { acceptor_open = true })) { workers = threads },
      main-start r program address auth port threads lo hi p t l h
          ∙ rw (started, success started) refl,
      configured-IsServing address auth (pos port) (pos lo) (pos hi) threads,
      refl,
      refl,
      refl,
      verify-Nord address auth (pos port) (pos lo) (pos hi),
    )
