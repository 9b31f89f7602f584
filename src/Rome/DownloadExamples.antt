-- ===== src/Rome/DownloadExamples.antt =====
-- The theorems about the downloads to the Rome controller at concrete inputs.
use android_device_zte_fujis.Common.{◌++◌, ℕ, ◌+◌, ◌≡◌, refl, some, List, [], ◌∷◌, map, pos, arith}
use android_device_zte_fujis.Rome.Write.{write_loop, do_write}
use android_device_zte_fujis.Rome.Read.{
  read_hci_event, read_packet, find_packet, fill, read_header, read_params,
}
use android_device_zte_fujis.Rome.Soc.{Uart, Soc}
use android_device_zte_fujis.Rome.Events.{
  read_vs_hci_event, read_vs_with, get_vs_hci_event, command_response, look_into,
}
use android_device_zte_fujis.Rome.Command.{
  frame_hci_cmd_pkt, written, hci_send_vs_cmd, send_and_wait, count_of,
}
use android_device_zte_fujis.Rome.Tlv.{
  first_waits, adjust_waits, segment_waits, rome_tlv_dnld_segment, download_segment, full_segments,
  last_segment, remain_of, rome_tlv_dnld_req,
}
use android_device_zte_fujis.Rome.Sending.{IsWhole}
use android_device_zte_fujis.Rome.Chunks.{join, tlv_command}
use android_device_zte_fujis.Rome.Download.{rome_tlv_dnld_req-file_chunks}
use android_device_zte_fujis.Rome.DeadLine.{rome_tlv_dnld_req_dead}
use android_device_zte_fujis.Rome.TlvFile.{rome_get_tlv_file}
use android_device_zte_fujis.Rome.Tags.{Tag, nvm_file, rome_get_tlv_file_nvm}
use android_device_zte_fujis.Rome.Patch.{
  patch_segment, patch_segments, last_patch_segment, rome_edl_patch_download_request,
}
use android_device_zte_fujis.Rome.Patched.{
  patch_command, rome_edl_patch_download_request-patch_commands,
}
use android_device_zte_fujis.Rome.Examples.{whole_line, uart, repeat, soc}

whole_line-IsWhole : IsWhole whole_line
whole_line-IsWhole sent n some_bytes = refl

rome_tlv_dnld_req-file_chunks_example :
    ((rome_tlv_dnld_req uart 245 soc).1.wire
      ≡ join (map tlv_command (repeat 243 7 ∷ repeat 2 7 ∷ [])))
    × (join (repeat 243 7 ∷ repeat 2 7 ∷ []) ≡ repeat 245 7)
unfolding rome_tlv_dnld_req first_waits full_segments segment_waits adjust_waits last_segment
    remain_of download_segment rome_tlv_dnld_segment send_and_wait hci_send_vs_cmd written do_write
    write_loop frame_hci_cmd_pkt read_vs_hci_event read_vs_with read_packet find_packet read_header
    fill read_params look_into get_vs_hci_event command_response
rome_tlv_dnld_req-file_chunks_example =
    rome_tlv_dnld_req-file_chunks uart whole_line-IsWhole soc refl

-- A line that takes nothing.
abbrev dead_uart : Uart
dead_uart = record uart { write = λ _ _. pos 0 }

rome_tlv_dnld_req_dead_example :
    ((rome_tlv_dnld_req dead_uart 245 soc).0 ≡ pos 0)
    × ((rome_tlv_dnld_req dead_uart 245 soc).1.wire ≡ [])
rome_tlv_dnld_req_dead_example =
    rome_tlv_dnld_req_dead dead_uart (λ _ _. refl) 245 soc (omega arith)

abbrev tag : ℕ → List ℕ → Tag
tag id data' = record { tag_id = id; tag_ptr = 0; tag_ex_flag = 0; bytes = data' }

abbrev address : List ℕ
address = 11 ∷ 12 ∷ 13 ∷ 14 ∷ 15 ∷ 16 ∷ []

rome_get_tlv_file_nvm_example :
    rome_get_tlv_file address
      (some (nvm_file 33 (tag 2 (repeat 7 0) ∷ tag 17 (3 ∷ 4 ∷ []) ∷ [])))
      soc
    ≡ some (
      pos 37,
      record soc {
        tlv_type = 2;
        tlv_dwnd_cfg = 0;
        pdata_buffer = nvm_file 33 (tag 2 (address ++ 0 ∷ []) ∷ tag 17 (3 ∷ 4 ∷ []) ∷ []);
      },
    )
rome_get_tlv_file_nvm_example =
    rome_get_tlv_file_nvm address (tag 2 (repeat 7 0)) (tag 17 (3 ∷ 4 ∷ []) ∷ []) soc refl refl
      (omega arith)

-- The patch of a Rome 1.0, whose two segments get a vendor event and a command complete event each.
abbrev rome_1_0 : Soc
rome_1_0 = record soc {
  pdata_buffer = repeat 240 7;
  incoming =
      0x04 ∷ 0xFF ∷ 3 ∷ 0 ∷ 0 ∷ 0 ∷ 0x04 ∷ 0x0E ∷ 1 ∷ 0 ∷ 0x04 ∷ 0xFF ∷ 3 ∷ 0 ∷ 0 ∷ 0 ∷ 0x04 ∷ 0x0E
      ∷ 1 ∷ 0 ∷ [];
}

rome_edl_patch_download_request-patch_commands_example :
    (rome_edl_patch_download_request uart 4096 240 rome_1_0).1.wire
    ≡ patch_command 4096 (repeat 239 7) ++ patch_command (4096 + 239) (7 ∷ [])
unfolding rome_edl_patch_download_request patch_segments last_patch_segment patch_segment count_of
    hci_send_vs_cmd written do_write write_loop frame_hci_cmd_pkt read_vs_hci_event read_vs_with
    read_hci_event read_packet find_packet read_header fill read_params look_into get_vs_hci_event
    command_response
rome_edl_patch_download_request-patch_commands_example =
    rome_edl_patch_download_request-patch_commands uart whole_line-IsWhole 4096 rome_1_0 refl
