-- ===== src/Meter/Tests.antt =====
-- Runs of the parser, and the theorems about frames at concrete inputs.
use power_monitor_sensor_hea.Base.{◌≡◌, refl, ◌⊎◌, inl, arith, [], ◌∷◌, set, All, IsU8}
use power_monitor_sensor_hea.Meter.{
  PzemStatus, blank_sample, word_be, low_high_words, modbus_crc16, parse_response,
}
use power_monitor_sensor_hea.Meter.Frame.{
  PowerFits, Rejected, OutOfRange, Accepted, parse_response_cases,
}
use power_monitor_sensor_hea.Meter.RoundTrip.{
  Registers, IsPlausible, answer, answer-IsGenuine, sample_of, parse_response-answer,
}
use power_monitor_sensor_hea.Meter.Detect.{parse_response_detects}

abbrev household : Registers
household = record {
  voltage = 2301;
  current = 5000;
  power = 11505;
  energy = 1234;
  frequency = 500;
  factor = 97;
  alarm = 0;
}

abbrev household-IsPlausible : IsPlausible household
household-IsPlausible = omega arith

crc_of_request : modbus_crc16 (0xF8 ∷ 4 ∷ 0 ∷ 0 ∷ 0 ∷ 10 ∷ []) ≡ 0x6464
unfolding modbus_crc16
crc_of_request = refl

parse_response-answer_example : parse_response 1 (answer 1 household) ≡ sample_of household
parse_response-answer_example =
    parse_response-answer 1 household (omega arith) household-IsPlausible

household_power : PowerFits (answer 1 household)
unfolding answer low_high_words word_be
household_power = inl (omega arith)

parse_response_cases_example :
    Rejected 1 (answer 1 household) (parse_response 1 (answer 1 household))
    ⊎ OutOfRange 1 (answer 1 household) (parse_response 1 (answer 1 household))
    ⊎ Accepted 1 (answer 1 household) (parse_response 1 (answer 1 household))
parse_response_cases_example = parse_response_cases 1 (answer 1 household) (λ g. household_power)

answer_bytes : All IsU8 (answer 1 household)
unfolding answer modbus_crc16
answer_bytes = omega arith

-- The high byte of the voltage has lost its lowest digit.
parse_response_detects_example :
    parse_response 1 (set (answer 1 household) 3 9) ≡ blank_sample PzemStatus.bad_crc
unfolding answer
parse_response_detects_example =
    parse_response_detects 1 1 (answer 1 household) 3 9
      (answer-IsGenuine 1 household (omega arith) household-IsPlausible) answer_bytes (omega arith)
      (omega arith) (omega arith)
