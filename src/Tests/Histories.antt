-- ===== src/Tests/Histories.antt =====
-- Histories for the tests: contents are numbers.
use codex_latest.Prelude.{ℕ, String, some, List, [], ◌∷◌}
use codex_latest.Security.{low}
use codex_latest.Event.{
  Event, ActionEvent, ObservationEvent, MessageEvent, Condensation, PlainEvent, Source, action,
  observation, message, condensation, condensation_request,
}

abbrev pub act : String → String → String → ActionEvent ℕ
act id call response = record {
  id = id;
  source = Source.agent;
  thought = [];
  thinking_blocks = [];
  action = some 1;
  tool_name = "terminal";
  tool_call_id = call;
  llm_response_id = response;
  security_risk = low;
}

abbrev pub obs : String → String → String → ObservationEvent ℕ
obs id call action_id = record {
  id = id;
  source = Source.environment;
  tool_name = "terminal";
  tool_call_id = call;
  observation = 2;
  action_id = action_id;
}

abbrev pub msg : String → MessageEvent ℕ
msg id = record { id = id; source = Source.user; llm_message = 3 }

-- It forgets the first observation, and leaves a summary.
abbrev pub cut : Condensation
cut = record {
  id = "k";
  source = Source.environment;
  forgotten_event_ids = "m1" ∷ "o1" ∷ [];
  summary = some "short";
  summary_offset = some 0;
  llm_response_id = "rk";
}

abbrev pub a1 : ActionEvent ℕ
a1 = act "a1" "c1" "r1"

abbrev pub a2 : ActionEvent ℕ
a2 = act "a2" "c2" "r1"

abbrev pub a3 : ActionEvent ℕ
a3 = act "a3" "c3" "r2"

-- A message, two actions of one response, their observations, a second message.
abbrev pub plain_history : List (Event ℕ)
plain_history =
    message (msg "m1")
    ∷ action a1
    ∷ action a2
    ∷ observation (obs "o1" "c1" "a1")
    ∷ observation (obs "o2" "c2" "a2")
    ∷ message (msg "m2")
    ∷ []

-- The same with a further call, a condensation, and a request for another one.
abbrev pub before_cut : List (Event ℕ)
before_cut =
    message (msg "m1")
    ∷ action a1
    ∷ action a2
    ∷ observation (obs "o1" "c1" "a1")
    ∷ observation (obs "o2" "c2" "a2")
    ∷ action a3
    ∷ observation (obs "o3" "c3" "a3")
    ∷ []

abbrev pub request : PlainEvent
request = record { id = "q"; source = Source.environment; class_name = "CondensationRequest" }

abbrev pub after_cut : List (Event ℕ)
after_cut = message (msg "m2") ∷ condensation_request request ∷ []

abbrev pub cut_history : List (Event ℕ)
cut_history =
    message (msg "m1")
    ∷ action a1
    ∷ action a2
    ∷ observation (obs "o1" "c1" "a1")
    ∷ observation (obs "o2" "c2" "a2")
    ∷ action a3
    ∷ observation (obs "o3" "c3" "a3")
    ∷ condensation cut
    ∷ message (msg "m2")
    ∷ condensation_request request
    ∷ []
