-- ===== src/Server/Enrollment/Tests.antt =====
-- enrollment_store.rs: a store for one pending device, with facts and hash that say nothing.
use at_pc.Common.{ℕ, Str, ascii, true, none, some, List, [], ◌∷◌, arith}
use at_pc.Server.Enrollment.{EnrollmentHello, DeviceEnrollmentStore}
use at_pc.Server.Enrollment.Bounds.{Op, issues, creates, consumes, run, Bounded, run-Bounded}

abbrev no_hash : Str → List ℕ
no_hash key = key

abbrev hello : Str → EnrollmentHello ℕ
hello device = record {
  protocol_version = 1;
  stable_device_id = device;
  public_key = device;
  facts = 0;
  capabilities = [];
  client_nonce = ascii "n";
}

abbrev one_place : DeviceEnrollmentStore ℕ
one_place = record {
  records = [];
  challenges = [];
  pending_ttl_secs = 3600;
  challenge_ttl_secs = 120;
  max_pending = 1;
}

abbrev requests : List (Op ℕ)
requests =
    issues (hello (ascii "a")) none 5 (some (ascii "c")) (some (ascii "s"))
    ∷ consumes (ascii "c") 6
    ∷ creates (hello (ascii "a")) none 6 (ascii "1") true
    ∷ creates (hello (ascii "b")) none 7 (ascii "2") true
    ∷ []

run-Bounded_example : Bounded (run no_hash one_place requests)
run-Bounded_example = run-Bounded no_hash one_place requests (record { within = omega arith })
