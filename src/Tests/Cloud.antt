-- ===== src/Tests/Cloud.antt =====
-- The theorems on the cloud and on the backoff, with a cloud that counts its calls.
use plenuslb.Base.{
  true, false, none, some, [], ◌∷◌, ℕ, zero, suc, ◌+◌, ◌*◌, ◌/◌, ◌≤◌, ◌≡◌, ◌⊎◌, refl, arith,
}
use plenuslb.Base.Int.{parse_int, times, quotient, decimal}
use plenuslb.Backoff.{
  Verdict, Ended, error_backoff, exponential_backoff_with_forever_cap, backoff_loop,
}
use plenuslb.Backoff.Total.{error_backoff_bounds}
use plenuslb.Calculator.{
  Floats, calculate, calculator_backoff, plural, seconds_to_human, split_seconds,
}
use plenuslb.Calculator.Same.{sleeps, sum, add_all, calculate-backoff_loop}
use plenuslb.Errors.{ok}
use plenuslb.Hetzner.{
  Server, FloatingIp, Response, Client, assign_ip_to_server, get_ip_by_address, get_server_by_name,
  delete_address, print_rate_limit,
}
use plenuslb.Hetzner.Calls.{assign_ip_to_server_ok, delete_address_panics}

abbrev node_a : Server
node_a = record { id = 1; name = "node-a" }

abbrev ip_a : FloatingIp
ip_a = record { id = 7; ip = "10.0.0.1" }

abbrev created : Response
created = record {
  status_code = 201;
  body = ok "{}";
  limit = "3600";
  remaining = "1";
  reset = "1600000000";
}

-- An answer without the header of the limit.
abbrev deleted : Response
deleted = record created { status_code = 204; limit = "" }

abbrev cloud : Client ℕ
cloud = record {
  ipv4 = "ipv4";
  servers = λ name n. (ok (node_a ∷ []), n + 1);
  floating_ips = λ n. (ok (ip_a ∷ []), n + 1);
  assign = λ ip server n. (ok created, n + 1);
  unassign = λ ip n. (ok created, n + 1);
  create = λ opts n. (ok ("10.0.0.2", created), n + 1);
  delete = λ ip n. (ok deleted, n + 1);
}

assign_ip_to_server_ok_example :
    (ip : FloatingIp) × (server : Server) × (res : Response) × (ip.ip ≡ "10.0.0.1")
    × (server.name ≡ "node-a")
    × (cloud.assign ip server 2 ≡ (ok res, 3))
    × ((res.status_code ≡ 200) ⊎ (res.status_code ≡ 201))
unfolding assign_ip_to_server get_ip_by_address get_server_by_name print_rate_limit parse_int times
    quotient
assign_ip_to_server_ok_example = assign_ip_to_server_ok cloud "10.0.0.1" "node-a" 0 3 refl

delete_address_panics_example : delete_address cloud "10.0.0.1" 0 ≡ none
unfolding get_ip_by_address parse_int
delete_address_panics_example =
    delete_address_panics cloud "10.0.0.1" 0 1 2 ip_a deleted refl refl refl refl refl

-- A condition that holds at its second call.
abbrev second : ℕ → Verdict × ℕ
second zero = (record { done = false; error = none }, 1)
second (suc n) = (record { done = true; error = none }, suc n)

abbrev longer : ℕ → ℕ
longer d = d * 6 / 5

abbrev no_jitter : ℕ → ℕ → ℕ
no_jitter r d = d

error_backoff_bounds_example :
    (r : Ended ℕ) × (exponential_backoff_with_forever_cap 553
        (error_backoff longer no_jitter)
        second
        0
      ≡ some r)
    × (r.rounds ≤ 552)
    × (r.slept ≤ 198360 * 1000000000)
error_backoff_bounds_example =
    error_backoff_bounds second 553 longer no_jitter 0 (omega arith) (λ r d. omega arith)

-- Nanoseconds in place of floats.
abbrev exact : Floats ℕ
exact = record {
  initial = 0;
  add = λ x y. x + y;
  seconds = λ n. n;
  print_whole = λ n. decimal (n / 1000000000);
}

abbrev slept_once : Ended ℕ
slept_once = record { error = none; final = 1; rounds = 2; slept = 1000000000 }

calculate-backoff_loop_example :
    (1000000000 ≡ 0 + sum (sleeps second 21 (calculator_backoff longer no_jitter) 0))
    × (calculate exact second 21 (calculator_backoff longer no_jitter) 0 0
        ≡ some (record {
          error = none;
          final = 1;
          max_retry_time =
              add_all exact 0 (sleeps second 21 (calculator_backoff longer no_jitter) 0);
        }))
unfolding backoff_loop
calculate-backoff_loop_example =
    calculate-backoff_loop exact second 21 (calculator_backoff longer no_jitter) 0 0 0 0 slept_once
      refl

human_test : seconds_to_human 90061 ≡ "1 day 1 hour 1 minute 1 second "
unfolding seconds_to_human split_seconds plural decimal
human_test = refl
