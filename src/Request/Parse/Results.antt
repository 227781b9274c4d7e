-- ===== src/Request/Parse/Results.antt =====
-- What `parse_request` can return.
use image_app.Common.{
  ◌≡◌, ◌⊎◌, inl, inr, refl, Option, some, List, [], Bytes, ok, Ensures, Ensures-bind, Ensures-ok,
}
use image_app.CString.{cstr}
use image_app.Request.Status.{
  RequestStatus, message_not_correct, icon_requested, empty_path, request_received,
}
use image_app.Request.Lines.{get_command_line, get_accept_line, get_user_agent}
use image_app.Request.Name.{parse_name}
use image_app.Request.Accept.{Quality, ImageNode, get_list_accept_image}
use image_app.Request.Parse.{Request, parse_headers, named, dispatch, parse_request, icon_name}

module _ (Q : Quality) where
  -- The three ways in which a request is answered, and what is then known of it.
  abbrev pub Answer : RequestStatus × Request Q → Type 0
  Answer (s, r) =
      (s ≡ icon_requested) × (r.image_name ≡ some icon_name)
      ⊎ ((s ≡ message_not_correct) × (r.image_name ≡ some [])
          ⊎ (s ≡ request_received)
            × ((a : Bytes) × (r.user_agent ≡ some a))
            × ((l : List (ImageNode Q)) × (r.image_list ≡ some l)))

  parse_headers-Answer :
      (message : Bytes) (request : Request Q) → Ensures Answer (parse_headers Q message request)
  unfolding parse_headers
  parse_headers-Answer message request =
      Ensures-bind Answer (get_accept_line message) _ λ accept_block.
        Ensures-bind Answer (get_user_agent message) _ λ agent_block.
          Ensures-bind Answer (cstr accept_block) _ λ accept_line.
            Ensures-bind Answer (cstr agent_block) _ λ user_agent.
              Ensures-bind Answer (get_list_accept_image Q accept_line) _
                λ nodes. inr (inr (refl, (user_agent, refl), (nodes, refl)))

  dispatch-Answer :
      (message : Bytes) (request : Request Q) (status : RequestStatus)
      (found : Option (Bytes × Bytes))
      → Ensures Answer (dispatch Q message request (record { status = status; found = found }))
  unfolding dispatch
  dispatch-Answer message request icon_requested found = inl (refl, refl)
  dispatch-Answer message request empty_path found = inl (refl, refl)
  dispatch-Answer message request message_not_correct found = inr (inl (refl, refl))
  dispatch-Answer message request _ found = parse_headers-Answer message (named Q request found)

  -- A message that is parsed is a request for the icon, an incorrect one, or a request for an image
  -- whose user agent and accepted types are known. No other status is ever returned, HEAD_CMD among
  -- them.
  pub parse_request_answers :
      (message : Bytes) {s : RequestStatus} {r : Request Q}
      → parse_request Q message ≡ ok (s, r)
      → Answer (s, r)
  unfolding parse_request
  parse_request_answers message = Ensures-ok Answer (parse_request Q message) (
      Ensures-bind Answer (get_command_line message) _ λ first_line.
        Ensures-bind Answer (cstr first_line) _ λ line.
          Ensures-bind Answer (parse_name first_line) _
            λ p. dispatch-Answer message _ p.status p.found)
