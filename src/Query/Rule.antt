-- ===== src/Query/Rule.antt =====
-- cantal_query/src/rule.rs: what a query asks for.
use cantal.Common.{ℕ, Bool, true, false, List}
use cantal.Query.Condition.{Condition}

pub data Extract : Type 0 where
  tip : Extract
  diff_to_at_most : ℕ → Extract
  history_by_num : ℕ → Extract
  -- In milliseconds.
  history_by_time : ℕ → Extract

-- query.rs, `single_value`.
unfoldable pub single_value : Extract → Bool
single_value Extract.tip = true
single_value (diff_to_at_most n) = true
single_value (history_by_num n) = false
single_value (history_by_time time_delta) = false

pub data Source : Type 0 where
  tip fine : Source

pub data MetricKind : Type 0 where
  counter level state : MetricKind

pub data Expectation : Type 0 where
  single_series multi_series single_tip multi_tip : MetricKind → Expectation
  chart : Expectation

-- The only filter of undefined values, `Ignore`, is left out.
pub data Function : Type 0 where
  expect : Expectation → Function
  non_negative_derivative : Function
  sum : Function
  sum_by : List ℕ → Bool → Function
  state_chart : ℕ → Function

pub record Filter (R : Type 0) : Type 0 where
  pub source : Source
  pub condition : Condition R

pub record Rule (R : Type 0) : Type 0 where
  pub series : Filter R
  pub extract : Extract
  pub functions : List Function
