-- ===== src/Segment/Flags.antt =====
-- The flag byte on the wire: FLAG_HDR_EXT is set and every other flag is kept.
use libfgw.Prelude.{
  every_below, every_below-at, ℕ, ◌^◌, ◌<◌, ◌≡◌, refl, bit_or, Bool, true, false, not, ◌&&◌, ltb,
  ltb→lt, arith,
}
use libfgw.Segment.Header.{
  has_flag, flag_syn, flag_fin, flag_data, flag_ack, flag_heartbeat, flag_hello, flag_hdr_route,
  flag_hdr_ext,
}

abbrev same : Bool → Bool → Bool
same true b = b
same false b = not b

same_sound : (a b : Bool) → same a b ≡ true → a ≡ b
same_sound true true h = refl
same_sound true false h = ground arith
same_sound false true h = ground arith
same_sound false false h = refl

abbrev keeps : ℕ → ℕ → Bool
keeps f g = same (has_flag (bit_or f flag_hdr_ext) g) (has_flag f g)

wire_checks : ℕ → Bool
wire_checks f =
    ltb (bit_or f flag_hdr_ext) (2 ^ 8)
    && (has_flag (bit_or f flag_hdr_ext) flag_hdr_ext
        && (keeps f flag_hdr_route
            && (keeps f flag_hello
                && (keeps f flag_heartbeat
                    && (keeps f flag_ack
                        && (keeps f flag_data && (keeps f flag_fin && keeps f flag_syn)))))))

flags_checked : every_below wire_checks 256 ≡ true
unfolding wire_checks has_flag
flags_checked = refl

pub record WireFlags (f : ℕ) : Type 0 where
  pub wire_lt : bit_or f flag_hdr_ext < 2 ^ 8
  pub extended : has_flag (bit_or f flag_hdr_ext) flag_hdr_ext ≡ true
  pub route_kept : has_flag (bit_or f flag_hdr_ext) flag_hdr_route ≡ has_flag f flag_hdr_route
  pub hello_kept : has_flag (bit_or f flag_hdr_ext) flag_hello ≡ has_flag f flag_hello
  pub heartbeat_kept : has_flag (bit_or f flag_hdr_ext) flag_heartbeat ≡ has_flag f flag_heartbeat
  pub ack_kept : has_flag (bit_or f flag_hdr_ext) flag_ack ≡ has_flag f flag_ack
  pub data_kept : has_flag (bit_or f flag_hdr_ext) flag_data ≡ has_flag f flag_data
  pub fin_kept : has_flag (bit_or f flag_hdr_ext) flag_fin ≡ has_flag f flag_fin
  pub syn_kept : has_flag (bit_or f flag_hdr_ext) flag_syn ≡ has_flag f flag_syn

abbrev every : ℕ → Bool → Bool → Bool → Bool
every f a b c = a && (b && c)

and_left : (a b : Bool) → (a && b) ≡ true → a ≡ true
and_left true b h = refl
and_left false b h = h

and_right : (a b : Bool) → (a && b) ≡ true → b ≡ true
and_right true b h = h
and_right false b h = ground arith

pub wire_flags : (f : ℕ) → f < 2 ^ 8 → WireFlags f
unfolding wire_checks
wire_flags f h =
    let h0 = every_below-at wire_checks 256 f h flags_checked in
    let h1 = and_right _ _ h0 in
    let h2 = and_right _ _ h1 in
    let h3 = and_right _ _ h2 in
    let h4 = and_right _ _ h3 in
    let h5 = and_right _ _ h4 in
    let h6 = and_right _ _ h5 in
    let h7 = and_right _ _ h6 in
    record {
      wire_lt = ltb→lt _ _ (and_left _ _ h0);
      extended = and_left _ _ h1;
      route_kept = same_sound _ _ (and_left _ _ h2);
      hello_kept = same_sound _ _ (and_left _ _ h3);
      heartbeat_kept = same_sound _ _ (and_left _ _ h4);
      ack_kept = same_sound _ _ (and_left _ _ h5);
      data_kept = same_sound _ _ (and_left _ _ h6);
      fin_kept = same_sound _ _ (and_left _ _ h7);
      syn_kept = same_sound _ _ (and_right _ _ h7);
    }
