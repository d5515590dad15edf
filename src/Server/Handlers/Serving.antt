-- ===== src/Server/Handlers/Serving.antt =====
-- `handleFile` and the routine that it leaves: what a client that asks for a file receives.
use newth.Prelude.{
  ℕ, ◌<◌, ◌≤◌, ◌^◌, ◌≡◌, refl, sym, ap, ◌∙◌, ◌⊎◌, inl, inr, Option, none, some, List, ◌++◌, arith,
  Bytes, length, append_assoc, append-nil,
}
use newth.Prelude.Int.{pos, negsuc}
use newth.Platform.Stream.{Stream}
use newth.Platform.Socket.{Net}
use newth.Server.SendBuffer.{send_buffer_new, soc_buf_err_fail}
use newth.Server.SendBuffer.Order.{IsValid}
use newth.Server.Routine.Window.{bytes_to_end}
use newth.Server.Http.Writer.{Connection}
use newth.Server.Http.Writer.Appends.{Appended, traffic}
use newth.Server.Routine.{Routine, routine_array_add, file_routine_new}
use newth.Server.Routine.Tick.{Multiplex}
use newth.Server.Routine.Tick.Invariant.{Outcome}
use newth.Server.Routine.Tick.Runs.{routine_ticks, routine_ticks-file_routine_new}
use newth.Server.Request.{HttpType, RangeRead, http_header_read_range}
use newth.Server.Handlers.{
  FileStat, FileSystem, Served, Window, file_head, file_window, file_routine_for, new_connection,
  after_file_head, handle_file,
}
use newth.Server.Handlers.Head.{
  IsForward, file_window-IsInside, window_body, file_page, file_head-Appends,
}

module _ {D : Type 0} (multiplex : Multiplex D) (sb_data_size : ℕ) where
  -- The routine either has a send buffer that failed, or its ticks put `total` on the wire.
  abbrev pub IsServing : Bytes → Routine → Net → Type 0
  IsServing total self net =
      (self.socket_buffer.options ≡ soc_buf_err_fail)
      ⊎ ((changes : List (D → D)) (d : D)
          → Outcome total (routine_ticks multiplex sb_data_size changes self net d))

  -- The answer is 0, and one routine has been added, which serves `total`.
  abbrev pub Answers : Bytes → List Routine → Option Served → Type 0
  Answers total routines none = ⊥
  Answers total routines (some served) =
      (served.answer ≡ 0)
      × ((self : Routine) × (served.routines ≡ routine_array_add routines self)
          × IsServing total self served.net)

  -- The bytes in front of the window, in whatever part they are still in the send buffer
  traffic-order :
      (c : Connection) (page body : Bytes) (socket : ℕ) (net : Net)
      → traffic c ≡ traffic (new_connection socket net) ++ page
      → traffic c ++ body ≡ net.wire ++ (page ++ body)
  unfolding send_buffer_new
  traffic-order c page body socket net sent =
      ap (λ x. x ++ body) (sent ∙ ap (λ x. x ++ page) (append-nil net.wire))
      ∙ append_assoc net.wire page body

  IsServing-new :
      (c : Connection) (fp : Stream) (start finish : ℕ) (page web_path : Bytes) (socket : ℕ)
      (net : Net)
      → start ≤ finish
      → IsValid c.socket_buffer
      → 0 < sb_data_size
      → (c.socket_buffer.options ≡ soc_buf_err_fail)
        ⊎ ((c.socket_buffer.options ≡ (send_buffer_new socket 0).options)
            × (traffic c ≡ traffic (new_connection socket net) ++ page))
      → IsServing
          (net.wire ++ (page ++ bytes_to_end fp.contents start finish))
          (file_routine_new c.socket_buffer fp start finish web_path)
          c.net
  unfolding file_routine_new send_buffer_new
  IsServing-new c fp start finish page web_path socket net forward valid size (inl failed) =
      inl failed
  IsServing-new c fp start finish page web_path socket net forward valid size (inr (clear, sent)) =
      let total = traffic-order c page (bytes_to_end fp.contents start finish) socket net sent in
      inr λ changes d. rw (sym total) (
        routine_ticks-file_routine_new multiplex sb_data_size size changes c.socket_buffer fp start
          finish web_path c.net d forward valid clear)

  after_file_head-Answers :
      (fp : Stream) (window : Window) (web_path page : Bytes) (routines : List Routine) (socket : ℕ)
      (net : Net) (o : Option (ℕ × Connection))
      → 0 < sb_data_size
      → IsForward window
      → Appended page (new_connection socket net) o
      → Answers
          (net.wire ++ (page ++ window_body fp.contents window))
          routines
          (after_file_head HttpType.http_get fp window web_path routines o)
  unfolding after_file_head file_routine_for
  after_file_head-Answers fp window web_path page routines socket net none size forward appended =
      elim appended [ ]
  after_file_head-Answers fp (whole, pos start, pos finish) web_path page routines socket net
        (some (n, c)) size forward (valid, sent) =
      (
        refl,
        (
          file_routine_new c.socket_buffer fp start finish web_path,
          refl,
          IsServing-new c fp start finish page web_path socket net forward valid size sent,
        ),
      )
  after_file_head-Answers fp (whole, pos start, negsuc finish) web_path page routines socket net
        (some r) size forward appended =
      elim forward [ ]
  after_file_head-Answers fp (whole, negsuc start, finish) web_path page routines socket net
        (some r) size forward appended =
      elim forward [ ]

  handle_file-page :
      (fs : FileSystem) (client_socket : ℕ) (header web_path absolute_path : Bytes) (st : FileStat)
      (routines : List Routine) (net : Net) (fp : Stream) (range : RangeRead)
      → fs.file_open absolute_path ≡ some fp
      → http_header_read_range header (pos st.st_size) ≡ some range
      → handle_file fs sb_data_size client_socket header web_path absolute_path HttpType.http_get st
          routines net
        ≡ after_file_head HttpType.http_get fp (file_window range st.st_size) web_path routines (
            file_head sb_data_size fs.current_time web_path st
              (file_window range st.st_size)
              (new_connection client_socket net))
  unfolding handle_file
  handle_file-page fs client_socket header web_path absolute_path st routines net fp range opened
        read =
      rw (opened, read, handle_file) refl

  -- A GET for a file that opens and has the length that its status gives, less than 2 ^ 64, with a range that was read
  -- and that does not end before its start, with times of at most 29 bytes and blocks of more than 85: the answer is 0
  -- and one routine is added. Unless the socket failed in the head, no tick of that routine faults, and when it is
  -- deleted without a failure, the wire has what it had, the head, and the window of the file, and no more. The head
  -- announces just the number of bytes of that window.
  pub handle_file-Answers :
      (fs : FileSystem) (client_socket : ℕ) (header web_path absolute_path : Bytes) (st : FileStat)
      (routines : List Routine) (net : Net) (fp : Stream) (range : RangeRead)
      → fs.file_open absolute_path ≡ some fp
      → http_header_read_range header (pos st.st_size) ≡ some range
      → IsForward (file_window range st.st_size)
      → st.st_size ≡ length fp.contents
      → st.st_size < 2 ^ 64
      → length fs.current_time ≤ 29
      → length st.modified_text ≤ 29
      → 85 < sb_data_size
      → let window = file_window range st.st_size in
        let body = window_body fp.contents window in
        Answers
          (net.wire ++ (file_page fs.current_time web_path st (length body) window ++ body))
          routines
          (handle_file fs sb_data_size client_socket header web_path absolute_path HttpType.http_get
            st routines net)
  unfolding send_buffer_new
  handle_file-Answers fs client_socket header web_path absolute_path st routines net fp range opened
        read forward same fits time modified size =
      let window = file_window range st.st_size in
      let head =
        file_head-Appends sb_data_size fs.current_time web_path st fp.contents window size fits time
          modified same forward (file_window-IsInside range st.st_size)
          (new_connection client_socket net) refl in
      rw
        (handle_file-page fs client_socket header web_path absolute_path st routines net fp range
          opened read)
        (after_file_head-Answers fp window web_path _ routines client_socket net _
          (omega (arith, size)) forward head)
