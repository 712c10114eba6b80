-- ===== src/Panel/Adapters/Tests.antt =====
-- The adapters at concrete bytes.
use pai.Prelude.{◌≡◌, refl, true, false, some, [], ◌∷◌, arith, ◌||◌, Bytes}
use pai.Panel.Adapters.{DateTime}
use pai.Panel.Adapters.Evo.{
  PanelEvent, decode_event, encode_event, to_bytes, decode_date, encode_date,
  decode_event-encode_event, decode_date-encode_date,
}
use pai.Panel.Adapters.Spectra.{
  decode_partition, decode_zone, decode_statuses, number_of, decode_partition-alarm,
  decode_zone-delays, number_of-decode_statuses,
}

abbrev opened : PanelEvent
opened = record { major = 1; minor = 300; minor2 = 767; partition = 3 }

opened_bytes : encode_event opened ≡ some (1 ∷ 0x63 ∷ 44 ∷ 255 ∷ [])
unfolding encode_event to_bytes
opened_bytes = refl

decode_event-encode_event_example :
    (bs : Bytes) × (encode_event opened ≡ some bs) × (decode_event bs ≡ some opened)
decode_event-encode_event_example =
    decode_event-encode_event opened (omega arith) (omega arith) (omega arith) (omega arith)

abbrev noon : DateTime
noon = record { year = 2024; month = 3; day = 1; hour = 12; minute = 0; second = 30 }

decode_date-encode_date_example :
    (decode_date (encode_date true noon) ≡ some noon)
    × (decode_date (encode_date false noon) ≡ some (record noon { second = 0 }))
decode_date-encode_date_example = decode_date-encode_date noon (omega arith)

decode_partition-alarm_example :
    let p = decode_partition 0x41 0 0 0 in
    p.alarm ≡ (
      p.pulse_fire_alarm || p.audible_alarm || p.silent_alarm || p.strobe_alarm
      || p.paramedic_alarm)
decode_partition-alarm_example = decode_partition-alarm 0x41 0 0 0 (omega arith)

decode_zone-delays_example :
    let z = decode_zone 0x20 in
    (z.intellizone_delay ≡ false)
    × (z.fire_delay ≡ true → z.entry_delay ≡ true)
    × (z.no_delay ≡ true → z.entry_delay ≡ false)
decode_zone-delays_example = decode_zone-delays 0x20 (omega arith)

number_of-decode_statuses_example : number_of (decode_statuses 1 (0x05 ∷ 0x80 ∷ [])) ≡ 0x8005
number_of-decode_statuses_example = number_of-decode_statuses 1 (0x05 ∷ 0x80 ∷ []) (omega arith)
