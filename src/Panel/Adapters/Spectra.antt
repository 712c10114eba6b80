-- ===== src/Panel/Adapters/Spectra.antt =====
-- Adapters of paradox/hardware/spectra_magellan/adapters.py: the statuses of partitions and zones.
use pai.Prelude.{
  ◌++◌, IsBytes, ==_iff, ℕ, suc, ◌+◌, ◌*◌, ◌/◌, ◌<◌, ◌≡◌, refl, Bool, true, false, not, ◌&&◌, ◌||◌,
  Option, none, some, List, [], ◌∷◌, ◌==◌, if◌then◌else◌, arith, Bytes, all_below, all_below-elim,
}
use pai.Panel.Adapters.{masked, masks_to}

-- the flags of a partition, and what they are combined to
pub record PartitionFlags : Type 0 where
  pub alarm : Bool
  pub pulse_fire_alarm : Bool
  pub audible_alarm : Bool
  pub silent_alarm : Bool
  pub strobe_alarm : Bool
  pub arm_stay : Bool
  pub arm_sleep : Bool
  pub arm : Bool
  pub bell_activated : Bool
  pub auto_arming_engaged : Bool
  pub recent_closing_delay : Bool
  pub intellizone_delay : Bool
  pub zone_bypassed : Bool
  pub alarms_in_memory : Bool
  pub entry_delay : Bool
  pub exit_delay : Bool
  pub paramedic_alarm : Bool
  pub not_used1 : Bool
  pub arm_with_remote : Bool
  pub transmission_delay_finished : Bool
  pub bell_delay_finished : Bool
  pub entry_delay_finished : Bool
  pub exit_delay_finished : Bool
  pub intellizone_delay_finished : Bool
  pub not_used2 : Bool
  pub wait_window : Bool
  pub not_used3 : Bool
  pub in_remote_delay : Bool
  pub not_used4 : Bool
  pub stayd_mode_active : Bool
  pub arm_force : Bool
  pub ready_status : Bool

unfoldable pub decode_partition : ℕ → ℕ → ℕ → ℕ → PartitionFlags
decode_partition b0 b1 b2 b3 = record {
  alarm = masked b0 0xF0 || masked b2 0x80;
  pulse_fire_alarm = masked b0 0x80;
  audible_alarm = masked b0 0x40;
  silent_alarm = masked b0 0x20;
  strobe_alarm = masked b0 0x10;
  arm_stay = masked b0 0x04;
  arm_sleep = masked b0 0x02;
  arm = masked b0 0x01;
  bell_activated = masked b1 0x80;
  auto_arming_engaged = masked b1 0x40;
  recent_closing_delay = masked b1 0x20;
  intellizone_delay = masked b1 0x10;
  zone_bypassed = masked b1 0x08;
  alarms_in_memory = masked b1 0x04;
  entry_delay = masked b1 0x02;
  exit_delay = masked b1 0x01;
  paramedic_alarm = masked b2 0x80;
  not_used1 = masked b2 0x40;
  arm_with_remote = masked b2 0x20;
  transmission_delay_finished = masked b2 0x10;
  bell_delay_finished = masked b2 0x08;
  entry_delay_finished = masked b2 0x04;
  exit_delay_finished = masked b2 0x02;
  intellizone_delay_finished = masked b2 0x01;
  not_used2 = masked b3 0x80;
  wait_window = masked b3 0x40;
  not_used3 = masked b3 0x20;
  in_remote_delay = masked b3 0x10;
  not_used4 = masked b3 0x08;
  stayd_mode_active = masked b3 0x04;
  arm_force = masked b3 0x02;
  ready_status = masked b3 0x01;
}

-- `PartitionStatusAdapter._decode`: none stands for an IndexError
unfoldable pub decode_partitions : Bytes → Option (PartitionFlags × PartitionFlags)
decode_partitions (a0 ∷ a1 ∷ a2 ∷ a3 ∷ b0 ∷ b1 ∷ b2 ∷ b3 ∷ bs) =
    some (decode_partition a0 a1 a2 a3, decode_partition b0 b1 b2 b3)
decode_partitions bs = none

-- what `ZoneStatusAdapter._decode` says of one zone
pub record ZoneFlags : Type 0 where
  pub was_in_alarm : Bool
  pub alarm : Bool
  pub fire_delay : Bool
  pub entry_delay : Bool
  pub intellizone_delay : Bool
  pub no_delay : Bool
  pub bypassed : Bool
  pub shutdown : Bool
  pub in_tx_delay : Bool
  pub was_bypassed : Bool

unfoldable pub decode_zone : ℕ → ZoneFlags
decode_zone b = record {
  was_in_alarm = masked b 0x80;
  alarm = masked b 0x40;
  fire_delay = masks_to b 0x30 0x30;
  entry_delay = masks_to b 0x10 0x10;
  intellizone_delay = masks_to b 0x20 0x10;
  no_delay = masks_to b 0x30 0;
  bypassed = masked b 0x08;
  shutdown = masked b 0x04;
  in_tx_delay = masked b 0x02;
  was_bypassed = masked b 0x01;
}

-- the zones are numbered from 1
unfoldable pub decode_zones_from : ℕ → Bytes → List (ℕ × ZoneFlags)
decode_zones_from n [] = []
decode_zones_from n (b ∷ bs) = (n, decode_zone b) ∷ decode_zones_from (suc n) bs

abbrev pub decode_zones : Bytes → List (ℕ × ZoneFlags)
decode_zones = decode_zones_from 1

-- `StatusAdapter._decode`: eight flags from each byte, the lowest first, numbered from 1
unfoldable pub decode_bits_from : ℕ → ℕ → List (ℕ × Bool)
decode_bits_from n status =
    (n, masks_to status 1 1)
    ∷ (n + 1, masks_to (status / 2) 1 1)
    ∷ (n + 2, masks_to (status / 4) 1 1)
    ∷ (n + 3, masks_to (status / 8) 1 1)
    ∷ (n + 4, masks_to (status / 16) 1 1)
    ∷ (n + 5, masks_to (status / 32) 1 1)
    ∷ (n + 6, masks_to (status / 64) 1 1)
    ∷ (n + 7, masks_to (status / 128) 1 1)
    ∷ []

-- from the number of the first flag, which is 1
unfoldable pub decode_statuses : ℕ → Bytes → List (ℕ × Bool)
decode_statuses n [] = []
decode_statuses n (status ∷ obj) = decode_bits_from n status ++ decode_statuses (n + 8) obj

-- the first byte of a partition: the combined alarm is set with any of its alarm flags
first_byte_table :
    all_below 256 (λ b.
      if masked b 0xF0
      then masked b 0x80 || masked b 0x40 || masked b 0x20 || masked b 0x10
      else not (masked b 0x80 || masked b 0x40 || masked b 0x20 || masked b 0x10))
    ≡ true
unfolding all_below
first_byte_table = refl

-- The combined alarm of a partition says exactly that one of its alarm flags is set, the paramedic
-- alarm of the third byte included.
pub decode_partition-alarm :
    (b0 b1 b2 b3 : ℕ)
    → b0 < 256
    → let p = decode_partition b0 b1 b2 b3 in
      p.alarm ≡ (
        p.pulse_fire_alarm || p.audible_alarm || p.silent_alarm || p.strobe_alarm
        || p.paramedic_alarm)
unfolding decode_partition
decode_partition-alarm b0 b1 b2 b3 h =
    let t =
      all_below-elim 256
        (λ b.
          if masked b 0xF0
          then masked b 0x80 || masked b 0x40 || masked b 0x20 || masked b 0x10
          else not (masked b 0x80 || masked b 0x40 || masked b 0x20 || masked b 0x10))
        b0 first_byte_table h in
    ground (arith, t)

-- the flags of a zone, decided for each byte
abbrev zone_flags_hold : ZoneFlags → Bool
zone_flags_hold z =
    not z.intellizone_delay
    && (if z.fire_delay then z.entry_delay else true)
    && (if z.no_delay then not z.entry_delay else true)

zone_table : all_below 256 (λ b. zone_flags_hold (decode_zone b)) ≡ true
unfolding all_below decode_zone
zone_table = refl

-- Of no byte of a zone does the adapter report an intellizone delay; a fire delay is reported as
-- an entry delay too, and no delay never together with an entry delay.
pub decode_zone-delays :
    (b : ℕ)
    → b < 256
    → let z = decode_zone b in
      (z.intellizone_delay ≡ false)
      × (z.fire_delay ≡ true → z.entry_delay ≡ true)
      × (z.no_delay ≡ true → z.entry_delay ≡ false)
decode_zone-delays b h =
    let t = all_below-elim 256 (λ b. zone_flags_hold (decode_zone b)) b zone_table h in
    ground (arith, t)

-- the number whose binary digits are the flags, the lowest first
abbrev pub number_of : List (ℕ × Bool) → ℕ
number_of [] = 0
number_of ((n, flag) ∷ flags) = (if flag then 1 else 0) + 2 * number_of flags

-- the number that the bytes are, the lowest first
abbrev pub little_endian : Bytes → ℕ
little_endian [] = 0
little_endian (b ∷ bs) = b + 256 * little_endian bs

digits_table : all_below 256 (λ b. number_of (decode_bits_from 1 b) == b) ≡ true
unfolding all_below decode_bits_from
digits_table = refl

number_of-decode_bits_from :
    (n b : ℕ) (rest : List (ℕ × Bool))
    → b < 256
    → number_of (decode_bits_from n b ++ rest) ≡ b + 256 * number_of rest
unfolding decode_bits_from
number_of-decode_bits_from n b rest h =
    let t = all_below-elim 256 (λ b. number_of (decode_bits_from 1 b) == b) b digits_table h in
    let e : number_of (decode_bits_from 1 b) ≡ b = (==_iff _ b).0 t in omega (arith, e)

-- The flags of a field of bytes are the binary digits of the number that the bytes are, the lowest
-- first: none is lost and none is out of place.
pub number_of-decode_statuses :
    (n : ℕ) (bs : Bytes) → IsBytes bs → number_of (decode_statuses n bs) ≡ little_endian bs
unfolding decode_statuses
number_of-decode_statuses n [] h = refl
number_of-decode_statuses n (b ∷ bs) h = omega (
  arith,
  number_of-decode_bits_from n b (decode_statuses (n + 8) bs) h.0,
  number_of-decode_statuses (n + 8) bs h.1,
)
