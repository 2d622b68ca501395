-- ===== src/Box/Events/Loop.antt =====
-- The loop over the events of one read: where it ends, and where it does not
-- (client-side/source/Box.cpp:188-232).
use mathlib.Core.Path.{fun_ext}
use dropbox_simulator.Common.{
  ℕ, zero, suc, ◌+◌, ◌≡◌, ◌<◌, ◌^◌, refl, ap, ◌∙◌, true, false, ℤ, Bytes, List, [], ◌∷◌, ◌++◌,
  append_assoc, length, length-append, drop, drop-append, drop-add, concat, map, ltb, ◌==◌, All,
  NoNul, c_string, c_string-append_nul, some, arith,
}
use dropbox_simulator.Thread.{diverges, pure, ◌>>◌}
use dropbox_simulator.Wire.{to_le}
use dropbox_simulator.Wire.Laws.{from_le-to_le}
use dropbox_simulator.Client.{Local, Client}
use dropbox_simulator.Box.Events.{
  event_loop, handle_event, event_mask, event_len, event_name, monitor_single_event_size,
}

-- An event as the kernel writes it: the name is followed by a NUL and padding.
pub record Event : Type 0 where
  pub wd : ℕ
  pub mask : ℕ
  pub cookie : ℕ
  pub name : Bytes
  pub padding : Bytes

abbrev pub name_field : Event → Bytes
name_field e = e.name ++ (0 ∷ e.padding)

abbrev pub encode_event : Event → Bytes
encode_event e =
    to_le 4 e.wd
    ++ (to_le 4 e.mask ++ (to_le 4 e.cookie ++ (to_le 4 (length (name_field e)) ++ name_field e)))

pub record EventFits (e : Event) : Type 0 where
  pub mask_fits : e.mask < 2 ^ 32
  pub length_fits : length (name_field e) < 2 ^ 32
  pub name_ok : NoNul e.name

-- One event after the other.
unfoldable pub handle_all : ℤ → List Event → Client (Unit {0})
handle_all sockfd [] = pure tt
handle_all sockfd (e ∷ es) = handle_event sockfd e.mask e.name >> handle_all sockfd es

-- The members of an event, and where the next one begins.
event_fields :
    (e : Event) (rest : Bytes)
    → EventFits e
    → let bs = encode_event e ++ rest in
      (event_mask bs ≡ e.mask)
      × (event_len bs ≡ length (name_field e))
      × (event_name bs ≡ some e.name)
      × (drop (monitor_single_event_size + length (name_field e)) bs ≡ rest)
unfolding to_le
event_fields e rest f = (
  from_le-to_le 4 e.mask (omega (arith, f.mask_fits)),
  from_le-to_le 4 (length (name_field e)) (omega (arith, f.length_fits)),
  ap c_string (append_assoc e.name (0 ∷ e.padding) rest)
      ∙ c_string-append_nul e.name (e.padding ++ rest) f.name_ok,
  drop-add 16 (length (name_field e)) (encode_event e ++ rest)
      ∙ drop-append (length (name_field e)) (name_field e) rest refl,
)

length-encode_event : (e : Event) → length (encode_event e) ≡ 16 + length (name_field e)
unfolding to_le
length-encode_event e = omega arith

-- From an index on, where `rest` is what is left of the buffer.
event_loop_from :
    (fuel : ℕ) (sockfd : ℤ) (buffer : Bytes) (i : ℕ) (es : List Event) (c : Local)
    → drop i buffer ≡ concat (map encode_event es)
    → i + length (concat (map encode_event es)) ≡ length buffer
    → All EventFits es
    → length es < fuel
    → event_loop fuel sockfd buffer (length buffer) i c ≡ handle_all sockfd es c
unfolding event_loop handle_all
event_loop_from zero sockfd buffer i es c at all fits enough = absurd (omega arith)
event_loop_from (suc fuel) sockfd buffer i [] c at all fits enough =
    let over : ltb i (length buffer) ≡ false = ground arith in rw over refl
event_loop_from (suc fuel) sockfd buffer i (e ∷ es) c at all (f, fits) enough =
    let rest = concat (map encode_event es) in
    let (mask, len, name, later) = event_fields e rest f in
    let sized = length-encode_event e in
    let total = length-append (encode_event e) rest in
    let some_name : 0 < length (name_field e) =
      omega (arith, length-append e.name (0 ∷ e.padding)) in
    let more : ltb i (length buffer) ≡ true = ground arith in
    let named : (length (name_field e) == 0) ≡ false = ground arith in
    let next = i + (monitor_single_event_size + length (name_field e)) in
    let at' : drop next buffer ≡ rest =
      drop-add i (monitor_single_event_size + length (name_field e)) buffer
      ∙ ap (drop (monitor_single_event_size + length (name_field e))) at
      ∙ later in
    let is_mask : event_mask (drop i buffer) ≡ e.mask = ap event_mask at ∙ mask in
    let is_len : event_len (drop i buffer) ≡ length (name_field e) = ap event_len at ∙ len in
    let is_name : event_name (drop i buffer) ≡ some e.name = ap event_name at ∙ name in
    rw more (
      rw (is_len, named)
        (rw is_name (
          rw is_mask (
            ap (λ k. (handle_event sockfd e.mask e.name >> k) c)
              (fun_ext λ d.
                event_loop_from fuel sockfd buffer next es d at' (omega (arith, all, sized, total))
                  fits (omega arith))))))

-- Over a buffer of events of which each has a name, the loop ends, within one round more than
-- there are events, and does what handling one event after the other does. (For the events as the
-- kernel writes them.)
pub event_loop-handle_all :
    (sockfd : ℤ) (es : List Event) (c : Local)
    → All EventFits es
    → let buffer = concat (map encode_event es) in
      event_loop (suc (length es)) sockfd buffer (length buffer) 0 c ≡ handle_all sockfd es c
event_loop-handle_all sockfd es c fits =
    event_loop_from (suc (length es)) sockfd (concat (map encode_event es)) 0 es c refl
      (omega arith) fits (omega arith)

-- At an event without a name, such as an overflow of the kernel's queue, the loop stays where it
-- is: no number of rounds ends it.
pub event_loop-diverges :
    (fuel : ℕ) (sockfd : ℤ) (buffer : Bytes) (i : ℕ) (c : Local)
    → i < length buffer
    → event_len (drop i buffer) ≡ 0
    → event_loop fuel sockfd buffer (length buffer) i c ≡ (diverges, c)
unfolding event_loop
event_loop-diverges zero sockfd buffer i c within unnamed = refl
event_loop-diverges (suc fuel) sockfd buffer i c within unnamed =
    let more : ltb i (length buffer) ≡ true = ground arith in
    rw more (rw unnamed (event_loop-diverges fuel sockfd buffer i c within unnamed))
