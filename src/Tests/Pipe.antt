-- ===== src/Tests/Pipe.antt =====
-- A stream of octets held in two lists.
use solicit.Base.{
  ℕ, ◌≤◌, ◌<◌, ◌≡◌, ◌≢◌, refl, sym, arith, List, [], ◌∷◌, ◌++◌, length, take, drop, length-take,
  take-append-drop,
}
use solicit.Http.Run.{ok}
use solicit.Transport.{TransportStream}
use solicit.Transport.ReadExact.{IsStream}

pub record Pipe : Type 0 where
  pub unread : List ℕ
  pub written : List ℕ

abbrev pub start : List ℕ → Pipe
start octets = record { unread = octets; written = [] }

instance abbrev pub pipe : TransportStream Pipe
pipe = record {
  read = λ n t. ok (take n t.unread) (record t { unread = drop n t.unread });
  write_all = λ bytes t. ok tt (record t { written = t.written ++ bytes });
}

pub front :
    (n : ℕ) (t t' : Pipe) (bytes : List ℕ)
    → pipe.read n t ≡ ok bytes t'
    → (length bytes ≤ n) × (t.unread ≡ bytes ++ t'.unread)
front n t t' bytes got =
    let taken : take n t.unread ≡ bytes = cc in
    let left : record t { unread = drop n t.unread } ≡ t' = cc in
    (
      rw (sym taken) (omega (arith, length-take n t.unread)),
      rw (sym taken, sym left) (sym (take-append-drop n t.unread)),
    )

pub nonempty : (xs : List ℕ) → xs ≢ [] → 0 < length xs
nonempty [] h = absurd (h refl)
nonempty (x ∷ xs) h = omega arith

abbrev pub pipe-IsStream : IsStream pipe
pipe-IsStream = record {
  unread = λ t. t.unread;
  written = λ t. t.written;
  read_front = front;
  read_some = λ n t positive some. (
    take n t.unread,
    record t { unread = drop n t.unread },
    refl,
    omega (arith, length-take n t.unread, nonempty t.unread some),
  );
  write_all_end = λ bytes t. (record t { written = t.written ++ bytes }, refl, refl);
}
