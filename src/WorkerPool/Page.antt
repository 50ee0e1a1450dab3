-- ===== src/WorkerPool/Page.antt =====
-- The page that the task of `tcp_worker_pool::submit` sends: the concatenated literals of
-- tcp_worker_pool.cpp.
use Prim.Native.String.{String}
use nonblocking_io.Common.{List, [], ◌∷◌}

abbrev pub page_lines : List String
page_lines =
    "<!DOCTYPE html>\n" ∷ "<!--STATUS OK-->\n" ∷ "<html>\n" ∷ "<head>\n"
    ∷ "    <meta http-equiv=content-type content=text/html;charset=utf-8>\n"
    ∷ "    <meta http-equiv=X-UA-Compatible content=IE=Edge>\n"
    ∷ "    <meta content=always name=referrer>\n"
    ∷ "    <link rel=stylesheet type=text/css href=http://s1.bdstatic.com/r/www/cache/bdorz/baidu.min.css>\n"
    ∷ "    <title>ç\u{99}¾åº¦ä¸\u{80}ä¸\u{8b}ï¼\u{8c}ä½\u{a0}å°±ç\u{9f}¥é\u{81}\u{93}</title></head>\n"
    ∷ "<body link=#0000cc>\n" ∷ "<div id=wrapper>\n" ∷ "    <div id=head>\n"
    ∷ "        <div class=head_wrapper>\n" ∷ "            <div class=s_form>\n"
    ∷ "                <div class=s_form_wrapper>\n"
    ∷ "                    <div id=lg><img hidefocus=true src=//www.baidu.com/img/bd_logo1.png width=270 height=129></div>\n"
    ∷ "                    <form id=form name=f action=//www.baidu.com/s class=fm><input type=hidden name=bdorz_come value=1>\n"
    ∷ "                        <input type=hidden name=ie value=utf-8> <input type=hidden name=f value=8> <input type=hidden\n"
    ∷ "                                                                                                          name=rsv_bp\n"
    ∷ "                                                                                                          value=1>\n"
    ∷ "                        <input type=hidden name=rsv_idx value=1> <input type=hidden name=tn value=baidu><span\n"
    ∷ "                                class=\"bg s_ipt_wr\"><input id=kw name=wd class=s_ipt value maxlength=255\n"
    ∷ "                                                           autocomplete=off autofocus></span><span\n"
    ∷ "                                class=\"bg s_btn_wr\"><input type=submit id=su value=ç\u{99}¾åº¦ä¸\u{80}ä¸\u{8b} class=\"bg s_btn\"></span>\n"
    ∷ "                    </form>\n" ∷ "                </div>\n" ∷ "            </div>\n"
    ∷ "            <div id=u1><a href=http://news.baidu.com name=tj_trnews class=mnav>æ\u{96}°é\u{97}»</a> <a href=http://www.hao123.com\n"
    ∷ "                                                                                             name=tj_trhao123\n"
    ∷ "                                                                                             class=mnav>hao123</a> <a\n"
    ∷ "                    href=http://map.baidu.com name=tj_trmap class=mnav>å\u{9c}°å\u{9b}¾</a> <a href=http://v.baidu.com\n"
    ∷ "                                                                                     name=tj_trvideo\n"
    ∷ "                                                                                     class=mnav>è§\u{86}é¢\u{91}</a> <a\n"
    ∷ "                    href=http://tieba.baidu.com name=tj_trtieba class=mnav>è´´å\u{90}§</a>\n"
    ∷ "                <noscript><a\n"
    ∷ "                        href=http://www.baidu.com/bdorz/login.gif?login&amp;tpl=mn&amp;u=http%3A%2F%2Fwww.baidu.com%2f%3fbdorz_come%3d1\n"
    ∷ "                        name=tj_login class=lb>ç\u{99}»å½\u{95}</a></noscript>\n"
    ∷ "                <script>document.write('<a href=\"http://www.baidu.com/bdorz/login.gif?login&tpl=mn&u=' + encodeURIComponent(window.location.href + (window.location.search === \"\" ? \"?\" : \"&\") + \"bdorz_come=1\") + '\" name=\"tj_login\" class=\"lb\">ç\u{99}»å½\u{95}</a>');</script>\n"
    ∷ "                <a href=//www.baidu.com/more/ name=tj_briicon class=bri style=\"display: block;\">æ\u{9b}´å¤\u{9a}äº§å\u{93}\u{81}</a></div>\n"
    ∷ "        </div>\n" ∷ "    </div>\n" ∷ "    <div id=ftCon>\n"
    ∷ "        <div id=ftConw><p id=lh><a href=http://home.baidu.com>å\u{85}³äº\u{8e}ç\u{99}¾åº¦</a> <a href=http://ir.baidu.com>About\n"
    ∷ "            Baidu</a></p>\n"
    ∷ "            <p id=cp>&copy;2017&nbsp;Baidu&nbsp;<a href=http://www.baidu.com/duty/>ä½¿ç\u{94}¨ç\u{99}¾åº¦å\u{89}\u{8d}å¿\u{85}è¯»</a>&nbsp; <a\n"
    ∷ "                    href=http://jianyi.baidu.com/ class=cp-feedback>æ\u{84}\u{8f}è§\u{81}å\u{8f}\u{8d}é¦\u{88}</a>&nbsp;äº¬ICPè¯\u{81}030173å\u{8f}·&nbsp; <img\n"
    ∷ "                    src=//www.baidu.com/img/gs.gif></p></div>\n" ∷ "    </div>\n"
    ∷ "</div>\n" ∷ "</body>\n" ∷ "</html>" ∷ []
