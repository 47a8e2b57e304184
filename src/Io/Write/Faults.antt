-- ===== src/Io/Write/Faults.antt =====
-- Writing on any transport, of src/io.c: the bound of the buffer.
use libnetconf.Common.{
  ℕ, ◌+◌, ◌≤◌, ◌≡◌, ◌⊎◌, inl, inr, refl, ap, [], ◌∷◌, ◌++◌, length, length-append, arith, Bool,
  true, false, Option, none, some, if◌then◌else◌, ltb, ◌==◌, ◌&&◌, not, Bool-cases, Option-cases,
}
use libnetconf.Common.Bytes.{Bytes}
use libnetconf.Io.Write.{
  WclbArg, write_bufsize, make_room, nc_write_clb_flush, escape_byte, escape_loop, put, put_after,
  nc_write_clb,
}

flush_fits :
    (w : WclbArg)
    → length w.buf ≤ write_bufsize
    → length (nc_write_clb_flush w).0.buf ≤ write_bufsize
unfolding nc_write_clb_flush
flush_fits w h = ground arith

make_room_fits : (w : WclbArg) → length (make_room w).0.buf + 5 ≤ write_bufsize
unfolding nc_write_clb_flush
make_room_fits w = ground arith

length-escape_byte : (c : ℕ) → length (escape_byte c) ≤ 5
unfolding escape_byte
length-escape_byte c = ground arith

escape_loop_fits :
    (cs : Bytes) (w : WclbArg) (ret : ℕ)
    → length w.buf ≤ write_bufsize
    → length (escape_loop w ret cs).0.buf ≤ write_bufsize
unfolding escape_loop
escape_loop_fits [] w ret h = h
escape_loop_fits (c ∷ cs) w ret h = elim (Option-cases (make_room w).1) [
  | inl e ↦ rw (e, escape_loop) (omega (arith, make_room_fits w))
  | inr (n, e) ↦
      rw (e, escape_loop)
        (escape_loop_fits cs
          (record { session = (make_room w).0.session; buf = (make_room w).0.buf ++ escape_byte c })
          (ret + length (escape_byte c))
          (omega (
            arith,
            make_room_fits w,
            length-escape_byte c,
            length-append (make_room w).0.buf (escape_byte c),
          )))
]

put_fits :
    (w : WclbArg) (ret : ℕ) (buf : Bytes) (xmlcontent : Bool)
    → length w.buf ≤ write_bufsize
    → (w.buf ≡ []) ⊎ (length w.buf + length buf ≤ write_bufsize)
    → length (put w ret buf xmlcontent).0.buf ≤ write_bufsize
unfolding put
put_fits w ret buf true h room = escape_loop_fits buf w ret h
put_fits w ret buf false h (inl z) = ground (arith, ap length z, length-append w.buf buf)
put_fits w ret buf false h (inr z) = ground (arith, length-append w.buf buf)

nil_of_length : (xs : Bytes) → (length xs == 0) ≡ true → xs ≡ []
nil_of_length [] e = refl
nil_of_length (x ∷ xs) e = absurd (ground arith)

-- Behind the first flush of nc_write_clb.
first_flush : WclbArg → Bytes → WclbArg × Option ℕ
first_flush w buf =
    if not (length w.buf == 0) && ltb write_bufsize (length w.buf + length buf)
    then nc_write_clb_flush w
    else (w, some 0)

nc_write_clb_flush-buf : (w : WclbArg) → (nc_write_clb_flush w).0.buf ≡ []
unfolding nc_write_clb_flush
nc_write_clb_flush-buf w = elim (Bool-cases (length w.buf == 0)) [
  | inl e ↦ rw e (nil_of_length w.buf e)
  | inr e ↦ rw e
]

first_flush_room :
    (w : WclbArg) (buf : Bytes)
    → length w.buf ≤ write_bufsize
    → (length (first_flush w buf).0.buf ≤ write_bufsize)
      × (((first_flush w buf).0.buf ≡ [])
          ⊎ (length (first_flush w buf).0.buf + length buf ≤ write_bufsize))
unfolding first_flush
first_flush_room w buf h =
    elim (Bool-cases (not (length w.buf == 0) && ltb write_bufsize (length w.buf + length buf))) [
      | inl e ↦ rw e (
        ground (arith, nc_write_clb_flush-buf w, ap length (nc_write_clb_flush-buf w)),
        inl (nc_write_clb_flush-buf w),
      )
      | inr e ↦ elim (Bool-cases (length w.buf == 0)) [
        | inl z ↦ rw e (h, inl (nil_of_length w.buf z))
        | inr z ↦ rw e (h, inr (ground arith))
      ]
    ]

put_after_fits :
    (r : WclbArg × Option ℕ) (buf : Bytes) (xmlcontent : Bool)
    → length r.0.buf ≤ write_bufsize
    → (r.0.buf ≡ []) ⊎ (length r.0.buf + length buf ≤ write_bufsize)
    → length (put_after r buf xmlcontent).0.buf ≤ write_bufsize
put_after_fits (w, none) buf xmlcontent h room = h
put_after_fits (w, some ret) buf xmlcontent h room = put_fits w ret buf xmlcontent h room

-- No call of nc_write_clb overruns the buffer, whatever the transport does.
pub nc_write_clb_fits :
    (w : WclbArg) (buf : Bytes) (xmlcontent : Bool)
    → length w.buf ≤ write_bufsize
    → length (nc_write_clb w buf xmlcontent).0.buf ≤ write_bufsize
unfolding nc_write_clb first_flush
nc_write_clb_fits w buf xmlcontent h =
    let (fits, room) = first_flush_room w buf h in
    put_after_fits (first_flush w buf) buf xmlcontent fits room
