-- ===== src/Tests/Transfers.antt =====
-- Responses on the wire, and the file of settings.
use image_app.Common.{
  ℕ, ◌≡◌, some, [], ◌∷◌, ◌++◌, Bytes, codes, ok, pos, replicate, length-replicate, arith, length,
}
use image_app.Strings.Decimal.Fill.{Spells}
use image_app.Strings.Message.Layout.{image_start, image_end}
use image_app.Request.Status.{get_cmd}
use image_app.Transfer.{broken, room, done, waiting, send_file_fd, send_image}
use image_app.Transfer.Whole.{sized, image_code, send_image_get}
use image_app.Transfer.Block.{send_page}
use image_app.Transfer.Block.Pages.{send_page_undefined}
use image_app.Transfer.Short.{send_file_fd_short}
use image_app.Config.{Globals, conf_port_serv, conf_backlog, conf_max_conn, parse_config_file}
use image_app.Config.Settings.{with_value, file_of, parse_config_file_lem}

abbrev buffer : Bytes
buffer = replicate 512 7

buffer-length : length buffer ≡ 512
buffer-length = length-replicate {A = ℕ} 512 7

send_image_get_example :
    (s : Bytes) × Spells 4 s
    × (send_image buffer
          (sized (codes ".jpg") (1 ∷ 2 ∷ 3 ∷ 4 ∷ []))
          get_cmd
          (room 512 ∷ room 4 ∷ [])
        ≡ done (some (image_code 4)) ((image_start ++ (s ++ image_end)) ++ (1 ∷ 2 ∷ 3 ∷ 4 ∷ [])) [])
send_image_get_example =
    send_image_get buffer (codes ".jpg") (1 ∷ 2 ∷ 3 ∷ 4 ∷ []) 512 4 [] buffer-length (omega arith)
      (omega arith) (omega arith) (omega arith)

-- Byte 2 never goes out.
send_file_fd_short_example :
    send_file_fd (1 ∷ 2 ∷ 3 ∷ 4 ∷ []) 4 (room 1 ∷ room 4 ∷ room 9 ∷ []) 0 0
    ≡ waiting (1 ∷ 3 ∷ 4 ∷ [])
send_file_fd_short_example =
    send_file_fd_short (1 ∷ 2 ∷ 3 ∷ 4 ∷ []) 1 4 (9 ∷ []) (omega arith) (omega arith) (omega arith)

abbrev defaults : Globals
defaults = record {
  num_thread_pool = pos 64;
  max_conn_db = pos 66;
  serv_port = pos 0;
  backlog = pos 0;
  size_pool = 1;
  size_arrfd = pos 0;
}

parse_config_file_lem_example :
    parse_config_file
      (some (file_of ((conf_port_serv, 5193) ∷ (conf_backlog, 1024) ∷ (conf_max_conn, 0) ∷ [])))
      defaults
    ≡ ok (record defaults { serv_port = pos 5193; backlog = pos 1024; max_conn_db = pos 0 })
unfolding with_value
parse_config_file_lem_example =
    parse_config_file_lem ((conf_port_serv, 5193) ∷ (conf_backlog, 1024) ∷ (conf_max_conn, 0) ∷ [])
      defaults ((λ e. cc, omega arith), ((λ e. cc, omega arith), ((λ e. cc, omega arith), tt)))

send_page_undefined_example :
    send_page (codes "<html></html>") buffer (room 512 ∷ room 14 ∷ []) ≡ broken
send_page_undefined_example =
    send_page_undefined (codes "<html></html>") buffer 512 14 [] buffer-length (omega arith)
      (omega arith) (omega arith)
