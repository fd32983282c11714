-- ===== src/Server/Router/Selection.antt =====
-- router.rs: a selection of a session, or of the server, and the targets it leads to.
use at_pc.Common.{◌≡◌, ◌≢◌, refl, ap, ◌∙◌, Str, Option, none, some, arith, ==_ne, ==_self, str_eq}
use at_pc.Map
use at_pc.Map.{Map}
use at_pc.Map.Laws.{get-insert}
use at_pc.Time.{Instant}
use at_pc.Server.Registry.Views.{TerminalEntry, list_terminals}
use at_pc.Server.Router.{
  McpRouter, ok, find_terminal, or_global, chosen, selected, selected_for, select_terminal,
  select_terminal_for_session, session_choice, get_active_terminal_id_for_session,
  resolve_target_terminal_with_session,
}

module _ {Metrics Sender Value : Type 0} where
  choice-insert :
      (r : McpRouter Metrics Sender Value) (sid id : Str) (s : Option Str)
      → some sid ≢ s
      → session_choice
          (record r { session_active_terminals = Map.insert sid id r.session_active_terminals })
          s
        ≡ session_choice r s
  choice-insert r sid id none ne = refl
  choice-insert r sid id (some s) ne =
      ground
        (arith, get-insert sid s id r.session_active_terminals, ==_ne sid s (λ e. ne (ap some e)))

  own-choice :
      (r : McpRouter Metrics Sender Value) (sid id : Str) (later : Instant)
      → session_choice r (some sid) ≡ some id
      → resolve_target_terminal_with_session r none (some sid) later ≡ ok id
  unfolding resolve_target_terminal_with_session get_active_terminal_id_for_session
  own-choice r sid id later p =
      ap (λ o. chosen (or_global o r.active_terminal_id) (list_terminals r.registry later)) p

  global-choice :
      (r : McpRouter Metrics Sender Value) (o : Option (TerminalEntry Metrics)) (s : Option Str)
      → session_choice (selected r o) s ≡ session_choice r s
  global-choice r none none = refl
  global-choice r none (some s) = refl
  global-choice r (some t) none = refl
  global-choice r (some t) (some s) = refl

  -- Once a session has selected a terminal, by its id or by a name, its calls that name none go to that
  -- terminal, whatever is selected for the whole server before or after that; and the calls of
  -- every other session, and those of no session, go where they went.
  pub select-resolve :
      (r : McpRouter Metrics Sender Value) (sid query global : Str) (t : TerminalEntry Metrics)
      (now later : Instant) (s : Option Str)
      → find_terminal r query now ≡ some t
      → some sid ≢ s
      → let after = (select_terminal_for_session r sid query now).0 in
        let both = (select_terminal after global now).0 in
        (resolve_target_terminal_with_session after none (some sid) later ≡ ok t.info.terminal_id)
        × (resolve_target_terminal_with_session both none (some sid) later ≡ ok t.info.terminal_id)
        × (resolve_target_terminal_with_session after none s later
            ≡ resolve_target_terminal_with_session r none s later)
  unfolding select_terminal_for_session select_terminal
  select-resolve r sid query global t now later s p ne =
      let choose : (o : Option (TerminalEntry Metrics)) → McpRouter Metrics Sender Value =
        λ o. selected_for r sid o in
      let id = t.info.terminal_id in
      let after : choose (find_terminal r query now) ≡ choose (some t) = ap choose p in
      let mine : session_choice (choose (some t)) (some sid) ≡ some id =
        ground (arith, get-insert sid sid id r.session_active_terminals, ==_self sid) in
      let chose : session_choice (choose (find_terminal r query now)) (some sid) ≡ some id =
        ap (λ x. session_choice x (some sid)) after ∙ mine in
      (
        own-choice _ sid id later chose,
        own-choice _ sid id later
            (global-choice (choose (find_terminal r query now)) _ (some sid) ∙ chose),
        ap (λ x. resolve_target_terminal_with_session x none s later) after
            ∙ (unfold resolve_target_terminal_with_session get_active_terminal_id_for_session in
                ap
                  (λ o. chosen (or_global o r.active_terminal_id) (list_terminals r.registry later))
                  (choice-insert r sid id s ne)),
      )
