-- ===== src/Relay/Commands/Tests.antt =====
-- A signed command, sent twice, and one that arrives during a lockout.
use remote_wake.Base.{ℕ, ◌≡◌, refl, true, false, List, [], ◌∷◌, codes}
use remote_wake.Auth.Errors.{AuthErr}
use remote_wake.Auth.Envelope.{copy_str_field, num_field_i64, signing_string, peek_id}
use remote_wake.Auth.Verify.{verify, authorize, structural, check_address, check_sig, check_time}
use remote_wake.Auth.Replay.{with_counters}
use remote_wake.Auth.Tests.{env, marks, zero_marks, write_mark, ops, command}
use remote_wake.B64Url.{
  decode, strip_padding, dec_loop, dec_one, prepend, dec_end, push_digit, ct_equal,
}
use remote_wake.CanonJson as Codec
use remote_wake.Relay.Lockout.{locked_out, lockout_remaining}
use remote_wake.Relay.Commands.{
  Effect, State, Arrival, looks_like_command, on_verified, handle_envelope, on_message, executed,
}
use remote_wake.Relay.Commands.Order.{Increasing, executed_in_order}
use remote_wake.Relay.Commands.Guards.{dispatch_guarded}

abbrev ready : State (List ℕ → ℕ)
ready = record {
  store = zero_marks;
  lockout = record { fail_ts = []; fail_head = 0; lock_until_us = 0 };
}

abbrev arrival : Arrival (List ℕ → ℕ)
arrival = record {
  message = record { bytes = 123 ∷ []; session = 4 };
  ops = ops;
  looked_us = 900;
  failed_us = 901;
  valid_before = true;
  valid_after = true;
}

abbrev after_command : State (List ℕ → ℕ)
after_command = record ready { store = write_mark zero_marks (codes "p1") 123 }

dispatches_it :
    on_message env marks 3 300 4 ready arrival ≡ (after_command, Effect.dispatches (command 123))
unfolding on_message handle_envelope on_verified looks_like_command locked_out lockout_remaining
    peek_id verify authorize structural check_address check_sig check_time copy_str_field
    num_field_i64 signing_string decode strip_padding dec_loop dec_one prepend dec_end push_digit
    ct_equal Codec.emit Codec.empty Codec.append
dispatches_it = refl

dispatch_guarded_example :
    (arrival.message.session ≡ 4)
    × (arrival.valid_before ≡ true)
    × (arrival.valid_after ≡ true)
    × (locked_out ready.lockout 900 ≡ false)
    × (verify env (with_counters marks ops) zero_marks (123 ∷ [])
        ≡ (after_command.store, AuthErr.ok, command 123))
    × (after_command.lockout ≡ ready.lockout)
dispatch_guarded_example =
    dispatch_guarded env marks 3 300 4 ready after_command arrival (command 123) dispatches_it

abbrev twice : List (ℕ × Arrival (List ℕ → ℕ))
twice = (4, arrival) ∷ (4, arrival) ∷ []

executed_in_order_example : Increasing (executed env marks 3 300 ready twice)
executed_in_order_example = executed_in_order env marks 3 300 twice ready

abbrev locked : State (List ℕ → ℕ)
locked = record ready { lockout = record { fail_ts = []; fail_head = 0; lock_until_us = 1000 } }
