-- ===== src/Session/Stream/Packets.antt =====
-- However the network cuts the stream, the packets are its lines.
use in_memory_object_storage.Common.{
  ℕ, ◌+◌, ◌-◌, ◌≤◌, ◌≡◌, ◌≢◌, ◌∙◌, sym, ap, inl, inr, [], ◌∷◌, ◌++◌, append_assoc, append-nil,
  Option, none, some, Option-cases, arith, length, take, drop, length-append, take-append-drop,
  take-append-length, take-append_le, drop-append_le, drop-append-length,
}
use in_memory_object_storage.Common.Text.{Bytes, codes, Lacks}
use in_memory_object_storage.Utils.Split.{find}
use in_memory_object_storage.Utils.Split.Tokens.{find-le}
use in_memory_object_storage.Utils.Split.Growing.{find-append}
use in_memory_object_storage.Utils.Split.Lacking.{find-Lacks_append}
use in_memory_object_storage.Session.Stream.{
  Input, unread, Moves, Reader, take_packet, taken, read_packet,
}

pub Moves-unread : (i i' : Input) → Moves i i' → unread i' ≡ unread i
Moves-unread i i' m =
    rw (m.buffer_is, m.incoming_is)
      (append_assoc i.buffer (take m.moved i.incoming) (drop m.moved i.incoming)
        ∙ ap (λ t. i.buffer ++ t) (take-append-drop m.moved i.incoming))

-- The first bytes of the stream, when they are in the buffer.
take_packet-stream :
    (i : Input) (packet rest : Bytes)
    → length packet ≤ length i.buffer
    → unread i ≡ packet ++ rest
    → ((take_packet (length packet) i).0 ≡ packet)
      × (unread (take_packet (length packet) i).1 ≡ rest)
unfolding take_packet
take_packet-stream i packet rest h u =
    let n = length packet in
    let none_missing : n - length i.buffer ≡ 0 = omega (arith, h) in
    (
      rw none_missing (
          append-nil (take n i.buffer)
          ∙ sym (take-append_le n i.buffer i.incoming h)
          ∙ ap (take n) u
          ∙ take-append-length packet rest),
      sym (drop-append_le n i.buffer i.incoming h) ∙ ap (drop n) u ∙ drop-append-length packet rest,
    )

-- Where the delimiter is found, when the stream begins with a text and the delimiter.
found-length :
    (delimiter text rest : Bytes) (i : Input) (position : ℕ)
    → find delimiter (text ++ (delimiter ++ rest)) ≡ some (length text)
    → unread i ≡ text ++ (delimiter ++ rest)
    → find delimiter i.buffer ≡ some position
    → position ≡ length text
found-length delimiter text rest i position there u f =
    let here = find-append delimiter i.buffer i.incoming position f in
    let both : some position ≡ some (length text) = sym here ∙ ap (find delimiter) u ∙ there in
    ground (arith, both)

taken-some :
    (result : Option ℕ × Input) (n : ℕ)
    → result.0 ≡ some n
    → taken result ≡ (some (take_packet n result.1).0, (take_packet n result.1).1)
taken-some (none, i) n e = cc
taken-some (some m, i) n e =
    let same : m ≡ n = ground (arith, e) in
    ap (λ k. (some (take_packet k i).0, (take_packet k i).1)) same

-- What is read, up to the end of the delimiter, and what is left.
taken-delimited :
    (r : Reader) (delimiter text rest : Bytes) (i : Input) (n : ℕ)
    → find delimiter (text ++ (delimiter ++ rest)) ≡ some (length text)
    → unread i ≡ text ++ (delimiter ++ rest)
    → (r.read_until delimiter i).0 ≡ some n
    → ((taken (r.read_until delimiter i)).0 ≡ some (text ++ delimiter))
      × (unread (taken (r.read_until delimiter i)).1 ≡ rest)
taken-delimited r delimiter text rest i n there u e =
    let i' = (r.read_until delimiter i).1 in
    let (position, f, g) = r.read_until-finds delimiter i n e in
    let same = Moves-unread i i' (r.read_until-Moves delimiter i) ∙ u in
    let at = found-length delimiter text rest i' position there same f in
    let packet = text ++ delimiter in
    let whole : length packet ≡ length text + length delimiter = length-append text delimiter in
    let size : n ≡ length packet = omega (arith, at, g, whole) in
    let fits : length packet ≤ length i'.buffer =
      omega (arith, at, whole, find-le delimiter i'.buffer position f) in
    let (read, left) =
      take_packet-stream i' packet rest fits (same ∙ sym (append_assoc text delimiter rest)) in
    let result =
      taken-some (r.read_until delimiter i) n e
      ∙ ap (λ k. (some (take_packet k i').0, (take_packet k i').1)) size in
    (ap (λ p. p.0) result ∙ ap some read, ap (λ p. unread p.1) result ∙ left)

-- A read ends without an error when the delimiter is in the stream.
abbrev pub IsSteady : Reader → Type 0
IsSteady r =
    (delimiter : Bytes) (i : Input)
    → find delimiter (unread i) ≢ none
    → (r.read_until delimiter i).0 ≢ none

pub taken-IsSteady :
    (r : Reader) (delimiter text rest : Bytes) (i : Input)
    → IsSteady r
    → find delimiter (text ++ (delimiter ++ rest)) ≡ some (length text)
    → unread i ≡ text ++ (delimiter ++ rest)
    → ((taken (r.read_until delimiter i)).0 ≡ some (text ++ delimiter))
      × (unread (taken (r.read_until delimiter i)).1 ≡ rest)
taken-IsSteady r delimiter text rest i steady there u =
    elim (Option-cases (r.read_until delimiter i).0) [
      | inl failed ↦
          let found = ap (find delimiter) u ∙ there in
          absurd (steady delimiter i (λ e. cc (e, found)) failed)
      | inr (n, e) ↦ taken-delimited r delimiter text rest i n there u e
    ]

pub read_packet-line :
    (r : Reader) (text rest : Bytes) (i : Input)
    → IsSteady r
    → Lacks 13 text
    → unread i ≡ text ++ (codes "\r\n" ++ rest)
    → ((read_packet r i).0 ≡ some (text ++ codes "\r\n")) × (unread (read_packet r i).1 ≡ rest)
unfolding read_packet
read_packet-line r text rest i steady l u =
    taken-IsSteady r (codes "\r\n") text rest i steady (find-Lacks_append 13 (10 ∷ []) text rest l)
      u
