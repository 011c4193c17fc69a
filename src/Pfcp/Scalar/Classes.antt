-- ===== src/Pfcp/Scalar/Classes.antt =====
-- The classes of one-number information elements of src/pfcp/3gpp_29.244.hpp, with the type codes
-- of src/common/3gpp_29.244.h.
use openair_cn_cups.Common.{Option, none, some, ℕ, List, [], ◌∷◌}
use openair_cn_cups.Pfcp.Scalar.{ScalarClass, network, host}

-- A class whose load_from checks for the width that its constructor announces, and whose dump_to
-- writes in network order.
abbrev pub regular : ℕ → ℕ → Option ℕ → ScalarClass
regular type width initial = record {
  type = type;
  width = width;
  checked_length = width;
  order = network;
  initial = initial;
}

abbrev pub cause : ScalarClass
cause = regular 19 1 (some 0)

abbrev pub source_interface : ScalarClass
source_interface = regular 20 1 (some 255)

abbrev pub destination_interface : ScalarClass
destination_interface = regular 42 1 (some 255)

abbrev pub bar_id : ScalarClass
bar_id = regular 88 1 (some 0)

abbrev pub outer_header_removal : ScalarClass
outer_header_removal = regular 95 1 none

abbrev pub pdr_id : ScalarClass
pdr_id = regular 56 2 (some 0)

abbrev pub offending_ie : ScalarClass
offending_ie = regular 40 2 (some 0)

abbrev pub precedence : ScalarClass
precedence = regular 29 4 (some 0)

abbrev pub time_threshold : ScalarClass
time_threshold = regular 32 4 (some 0)

abbrev pub monitoring_time : ScalarClass
monitoring_time = regular 33 4 (some 0)

abbrev pub subsequent_time_threshold : ScalarClass
subsequent_time_threshold = regular 35 4 (some 0)

abbrev pub inactivity_detection_time : ScalarClass
inactivity_detection_time = regular 36 4 (some 0)

abbrev pub qer_id : ScalarClass
qer_id = regular 109 4 none

abbrev pub far_id : ScalarClass
far_id = regular 108 4 none

abbrev pub recovery_time_stamp : ScalarClass
recovery_time_stamp = regular 96 4 (some 0)

abbrev pub user_plane_inactivity_timer : ScalarClass
user_plane_inactivity_timer = regular 117 4 none

-- dump_to converts the number into a local variable and then writes the member itself.
abbrev pub urr_id : ScalarClass
urr_id = record { type = 81; width = 4; checked_length = 4; order = host; initial = none }

-- load_from checks for a length of 1, and the constructor announces 4.
abbrev pub qer_correlation_id : ScalarClass
qer_correlation_id = record {
  type = 28;
  width = 4;
  checked_length = 1;
  order = network;
  initial = some 0;
}

abbrev pub regular_classes : List ScalarClass
regular_classes =
    cause ∷ source_interface ∷ destination_interface ∷ bar_id ∷ outer_header_removal ∷ pdr_id
    ∷ offending_ie ∷ precedence ∷ time_threshold ∷ monitoring_time ∷ subsequent_time_threshold
    ∷ inactivity_detection_time ∷ qer_id ∷ far_id ∷ recovery_time_stamp
    ∷ user_plane_inactivity_timer ∷ []
