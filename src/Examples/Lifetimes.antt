-- ===== src/Examples/Lifetimes.antt =====
-- Policies on the lifetimes of tokens: a time span, and policies of an application.
use entra_emulator.Prelude.{
  String, ◌≡◌, refl, true, false, Option, none, some, [], ◌∷◌, arith, select_first, exists,
}
use entra_emulator.Store.Types.{Store, TokenLifetimePolicy, ok}
use entra_emulator.Store.Directory.{app_exists}
use entra_emulator.Text.Integers.{digits, digits_from, parse_int}
use entra_emulator.Tokens.Lifetimes.{
  Definition, get_token_lifetime_policy, assign_token_lifetime_policy, effective_token_lifetimes,
  parse_policy_lifetimes, parse_definitions, create_token_lifetime_policy,
  delete_token_lifetime_policy, unassign_token_lifetime_policy,
}
use entra_emulator.Tokens.Lifetimes.Assigned.{
  IsPolicyTable, policies-IsPolicyTable, assign-effective,
}
use entra_emulator.Tokens.Lifetimes.TimeSpan.{
  parse_time_span, leading_days, clock_parts, cut_at, split_at, count_char,
}
use entra_emulator.Tokens.Lifetimes.TimeSpan.Spans.{parse_time_span_complete}
use entra_emulator.Examples.Data.{directory, web}

abbrev hours : TokenLifetimePolicy
hours = record {
  id = "hours";
  display_name = "Hours";
  definition = "08:00:00" ∷ [];
  is_organization_default = false;
  created_at = 5;
}

abbrev days : TokenLifetimePolicy
days = record {
  id = "days";
  display_name = "Days";
  definition = "1.02:03:04" ∷ [];
  is_organization_default = true;
  created_at = 7;
}

abbrev with_policies : Store
with_policies = record directory {
  token_lifetime_policies = hours ∷ (days ∷ []);
  app_token_lifetime_policies = record { app_id = web.id; policy_id = "days" } ∷ [];
}

-- The definition holds the lifetime of access tokens alone.
abbrev plain : String → Option Definition
plain raw = some record { access_token = raw; id_token = ""; refresh_token = "" }

with_policies-IsPolicyTable : IsPolicyTable with_policies
unfolding exists
with_policies-IsPolicyTable = record { one_each = (tt, tt); known = (refl, tt) }

hours_found : get_token_lifetime_policy with_policies "hours" ≡ ok hours
unfolding get_token_lifetime_policy select_first
hours_found = refl

web_there : app_exists with_policies web.id ≡ true
unfolding app_exists exists
web_there = refl

eight_hours :
    parse_policy_lifetimes plain hours
    ≡ record { access_token = 28800; id_token = 0; refresh_token = 0 }
unfolding parse_policy_lifetimes parse_definitions parse_time_span leading_days clock_parts cut_at
    split_at count_char parse_int digits digits_from
eight_hours = refl

-- A sum that is 2^64 + 1 wraps around.
wrapped : parse_time_span "213503982334601.07:00:17" ≡ some 1
unfolding parse_time_span leading_days clock_parts cut_at split_at count_char parse_int digits
    digits_from
wrapped = refl

policies-IsPolicyTable_example :
    IsPolicyTable (create_token_lifetime_policy days with_policies).1
    × IsPolicyTable (delete_token_lifetime_policy "days" with_policies).1
    × IsPolicyTable (assign_token_lifetime_policy web.id "hours" with_policies).1
    × IsPolicyTable (unassign_token_lifetime_policy web.id "hours" with_policies).1
policies-IsPolicyTable_example =
    policies-IsPolicyTable with_policies days "days" web.id "hours" with_policies-IsPolicyTable

assign-effective_example :
    effective_token_lifetimes plain
      (assign_token_lifetime_policy web.id "hours" with_policies).1
      web.id
    ≡ parse_policy_lifetimes plain hours
assign-effective_example =
    assign-effective plain web.id "hours" with_policies hours hours_found web_there

read_span : parse_time_span "1.02:03:04" ≡ some 93784
unfolding parse_time_span leading_days clock_parts cut_at split_at count_char parse_int digits
    digits_from
read_span = refl

one : digits "1" ≡ some 1
unfolding digits digits_from
one = refl

two : digits "02" ≡ some 2
unfolding digits digits_from
two = refl

three : digits "03" ≡ some 3
unfolding digits digits_from
three = refl

ninety : digits "90" ≡ some 90
unfolding digits digits_from
ninety = refl

-- Without days, as hours are usually written.
read_clock : parse_time_span "08:00:00" ≡ some 28800
unfolding parse_time_span leading_days clock_parts cut_at split_at count_char parse_int digits
    digits_from
read_clock = refl

parse_time_span_complete_example : parse_time_span "02:03:90" ≡ some 7470
parse_time_span_complete_example =
    parse_time_span_complete none "02" "03" "90" 0 2 3 90 refl two three ninety (omega arith)
      (omega arith)
