-- ===== src/G711/Tables.antt =====
-- The decoding tables of g711_tables.h. Entry `u` is the sample of code `u`.
use mach_audio.Prelude.{ℤ, pos, negsuc, List, [], ◌∷◌}

unfoldable pub pcmu_to_l16_lut : List ℤ
pcmu_to_l16_lut =
    negsuc 32123
    ∷ negsuc 31099
    ∷ negsuc 30075
    ∷ negsuc 29051
    ∷ negsuc 28027
    ∷ negsuc 27003
    ∷ negsuc 25979
    ∷ negsuc 24955
    ∷ negsuc 23931
    ∷ negsuc 22907
    ∷ negsuc 21883
    ∷ negsuc 20859
    ∷ negsuc 19835
    ∷ negsuc 18811
    ∷ negsuc 17787
    ∷ negsuc 16763
    ∷ negsuc 15995
    ∷ negsuc 15483
    ∷ negsuc 14971
    ∷ negsuc 14459
    ∷ negsuc 13947
    ∷ negsuc 13435
    ∷ negsuc 12923
    ∷ negsuc 12411
    ∷ negsuc 11899
    ∷ negsuc 11387
    ∷ negsuc 10875
    ∷ negsuc 10363
    ∷ negsuc 9851
    ∷ negsuc 9339
    ∷ negsuc 8827
    ∷ negsuc 8315
    ∷ negsuc 7931
    ∷ negsuc 7675
    ∷ negsuc 7419
    ∷ negsuc 7163
    ∷ negsuc 6907
    ∷ negsuc 6651
    ∷ negsuc 6395
    ∷ negsuc 6139
    ∷ negsuc 5883
    ∷ negsuc 5627
    ∷ negsuc 5371
    ∷ negsuc 5115
    ∷ negsuc 4859
    ∷ negsuc 4603
    ∷ negsuc 4347
    ∷ negsuc 4091
    ∷ negsuc 3899
    ∷ negsuc 3771
    ∷ negsuc 3643
    ∷ negsuc 3515
    ∷ negsuc 3387
    ∷ negsuc 3259
    ∷ negsuc 3131
    ∷ negsuc 3003
    ∷ negsuc 2875
    ∷ negsuc 2747
    ∷ negsuc 2619
    ∷ negsuc 2491
    ∷ negsuc 2363
    ∷ negsuc 2235
    ∷ negsuc 2107
    ∷ negsuc 1979
    ∷ negsuc 1883
    ∷ negsuc 1819
    ∷ negsuc 1755
    ∷ negsuc 1691
    ∷ negsuc 1627
    ∷ negsuc 1563
    ∷ negsuc 1499
    ∷ negsuc 1435
    ∷ negsuc 1371
    ∷ negsuc 1307
    ∷ negsuc 1243
    ∷ negsuc 1179
    ∷ negsuc 1115
    ∷ negsuc 1051
    ∷ negsuc 987
    ∷ negsuc 923
    ∷ negsuc 875
    ∷ negsuc 843
    ∷ negsuc 811
    ∷ negsuc 779
    ∷ negsuc 747
    ∷ negsuc 715
    ∷ negsuc 683
    ∷ negsuc 651
    ∷ negsuc 619
    ∷ negsuc 587
    ∷ negsuc 555
    ∷ negsuc 523
    ∷ negsuc 491
    ∷ negsuc 459
    ∷ negsuc 427
    ∷ negsuc 395
    ∷ negsuc 371
    ∷ negsuc 355
    ∷ negsuc 339
    ∷ negsuc 323
    ∷ negsuc 307
    ∷ negsuc 291
    ∷ negsuc 275
    ∷ negsuc 259
    ∷ negsuc 243
    ∷ negsuc 227
    ∷ negsuc 211
    ∷ negsuc 195
    ∷ negsuc 179
    ∷ negsuc 163
    ∷ negsuc 147
    ∷ negsuc 131
    ∷ negsuc 119
    ∷ negsuc 111
    ∷ negsuc 103
    ∷ negsuc 95
    ∷ negsuc 87
    ∷ negsuc 79
    ∷ negsuc 71
    ∷ negsuc 63
    ∷ negsuc 55
    ∷ negsuc 47
    ∷ negsuc 39
    ∷ negsuc 31
    ∷ negsuc 23
    ∷ negsuc 15
    ∷ negsuc 7
    ∷ pos 0
    ∷ pos 32124
    ∷ pos 31100
    ∷ pos 30076
    ∷ pos 29052
    ∷ pos 28028
    ∷ pos 27004
    ∷ pos 25980
    ∷ pos 24956
    ∷ pos 23932
    ∷ pos 22908
    ∷ pos 21884
    ∷ pos 20860
    ∷ pos 19836
    ∷ pos 18812
    ∷ pos 17788
    ∷ pos 16764
    ∷ pos 15996
    ∷ pos 15484
    ∷ pos 14972
    ∷ pos 14460
    ∷ pos 13948
    ∷ pos 13436
    ∷ pos 12924
    ∷ pos 12412
    ∷ pos 11900
    ∷ pos 11388
    ∷ pos 10876
    ∷ pos 10364
    ∷ pos 9852
    ∷ pos 9340
    ∷ pos 8828
    ∷ pos 8316
    ∷ pos 7932
    ∷ pos 7676
    ∷ pos 7420
    ∷ pos 7164
    ∷ pos 6908
    ∷ pos 6652
    ∷ pos 6396
    ∷ pos 6140
    ∷ pos 5884
    ∷ pos 5628
    ∷ pos 5372
    ∷ pos 5116
    ∷ pos 4860
    ∷ pos 4604
    ∷ pos 4348
    ∷ pos 4092
    ∷ pos 3900
    ∷ pos 3772
    ∷ pos 3644
    ∷ pos 3516
    ∷ pos 3388
    ∷ pos 3260
    ∷ pos 3132
    ∷ pos 3004
    ∷ pos 2876
    ∷ pos 2748
    ∷ pos 2620
    ∷ pos 2492
    ∷ pos 2364
    ∷ pos 2236
    ∷ pos 2108
    ∷ pos 1980
    ∷ pos 1884
    ∷ pos 1820
    ∷ pos 1756
    ∷ pos 1692
    ∷ pos 1628
    ∷ pos 1564
    ∷ pos 1500
    ∷ pos 1436
    ∷ pos 1372
    ∷ pos 1308
    ∷ pos 1244
    ∷ pos 1180
    ∷ pos 1116
    ∷ pos 1052
    ∷ pos 988
    ∷ pos 924
    ∷ pos 876
    ∷ pos 844
    ∷ pos 812
    ∷ pos 780
    ∷ pos 748
    ∷ pos 716
    ∷ pos 684
    ∷ pos 652
    ∷ pos 620
    ∷ pos 588
    ∷ pos 556
    ∷ pos 524
    ∷ pos 492
    ∷ pos 460
    ∷ pos 428
    ∷ pos 396
    ∷ pos 372
    ∷ pos 356
    ∷ pos 340
    ∷ pos 324
    ∷ pos 308
    ∷ pos 292
    ∷ pos 276
    ∷ pos 260
    ∷ pos 244
    ∷ pos 228
    ∷ pos 212
    ∷ pos 196
    ∷ pos 180
    ∷ pos 164
    ∷ pos 148
    ∷ pos 132
    ∷ pos 120
    ∷ pos 112
    ∷ pos 104
    ∷ pos 96
    ∷ pos 88
    ∷ pos 80
    ∷ pos 72
    ∷ pos 64
    ∷ pos 56
    ∷ pos 48
    ∷ pos 40
    ∷ pos 32
    ∷ pos 24
    ∷ pos 16
    ∷ pos 8
    ∷ pos 0
    ∷ []

unfoldable pub pcmu_to_l16_lut_32 : List ℤ
pcmu_to_l16_lut_32 =
    negsuc 32123
    ∷ negsuc 31099
    ∷ negsuc 30075
    ∷ negsuc 29051
    ∷ negsuc 28027
    ∷ negsuc 27003
    ∷ negsuc 25979
    ∷ negsuc 24955
    ∷ negsuc 23931
    ∷ negsuc 22907
    ∷ negsuc 21883
    ∷ negsuc 20859
    ∷ negsuc 19835
    ∷ negsuc 18811
    ∷ negsuc 17787
    ∷ negsuc 16763
    ∷ negsuc 15995
    ∷ negsuc 15483
    ∷ negsuc 14971
    ∷ negsuc 14459
    ∷ negsuc 13947
    ∷ negsuc 13435
    ∷ negsuc 12923
    ∷ negsuc 12411
    ∷ negsuc 11899
    ∷ negsuc 11387
    ∷ negsuc 10875
    ∷ negsuc 10363
    ∷ negsuc 9851
    ∷ negsuc 9339
    ∷ negsuc 8827
    ∷ negsuc 8315
    ∷ negsuc 7931
    ∷ negsuc 7675
    ∷ negsuc 7419
    ∷ negsuc 7163
    ∷ negsuc 6907
    ∷ negsuc 6651
    ∷ negsuc 6395
    ∷ negsuc 6139
    ∷ negsuc 5883
    ∷ negsuc 5627
    ∷ negsuc 5371
    ∷ negsuc 5115
    ∷ negsuc 4859
    ∷ negsuc 4603
    ∷ negsuc 4347
    ∷ negsuc 4091
    ∷ negsuc 3899
    ∷ negsuc 3771
    ∷ negsuc 3643
    ∷ negsuc 3515
    ∷ negsuc 3387
    ∷ negsuc 3259
    ∷ negsuc 3131
    ∷ negsuc 3003
    ∷ negsuc 2875
    ∷ negsuc 2747
    ∷ negsuc 2619
    ∷ negsuc 2491
    ∷ negsuc 2363
    ∷ negsuc 2235
    ∷ negsuc 2107
    ∷ negsuc 1979
    ∷ negsuc 1883
    ∷ negsuc 1819
    ∷ negsuc 1755
    ∷ negsuc 1691
    ∷ negsuc 1627
    ∷ negsuc 1563
    ∷ negsuc 1499
    ∷ negsuc 1435
    ∷ negsuc 1371
    ∷ negsuc 1307
    ∷ negsuc 1243
    ∷ negsuc 1179
    ∷ negsuc 1115
    ∷ negsuc 1051
    ∷ negsuc 987
    ∷ negsuc 923
    ∷ negsuc 875
    ∷ negsuc 843
    ∷ negsuc 811
    ∷ negsuc 779
    ∷ negsuc 747
    ∷ negsuc 715
    ∷ negsuc 683
    ∷ negsuc 651
    ∷ negsuc 619
    ∷ negsuc 587
    ∷ negsuc 555
    ∷ negsuc 523
    ∷ negsuc 491
    ∷ negsuc 459
    ∷ negsuc 427
    ∷ negsuc 395
    ∷ negsuc 371
    ∷ negsuc 355
    ∷ negsuc 339
    ∷ negsuc 323
    ∷ negsuc 307
    ∷ negsuc 291
    ∷ negsuc 275
    ∷ negsuc 259
    ∷ negsuc 243
    ∷ negsuc 227
    ∷ negsuc 211
    ∷ negsuc 195
    ∷ negsuc 179
    ∷ negsuc 163
    ∷ negsuc 147
    ∷ negsuc 131
    ∷ negsuc 119
    ∷ negsuc 111
    ∷ negsuc 103
    ∷ negsuc 95
    ∷ negsuc 87
    ∷ negsuc 79
    ∷ negsuc 71
    ∷ negsuc 63
    ∷ negsuc 55
    ∷ negsuc 47
    ∷ negsuc 39
    ∷ negsuc 31
    ∷ negsuc 23
    ∷ negsuc 15
    ∷ negsuc 7
    ∷ pos 0
    ∷ pos 32124
    ∷ pos 31100
    ∷ pos 30076
    ∷ pos 29052
    ∷ pos 28028
    ∷ pos 27004
    ∷ pos 25980
    ∷ pos 24956
    ∷ pos 23932
    ∷ pos 22908
    ∷ pos 21884
    ∷ pos 20860
    ∷ pos 19836
    ∷ pos 18812
    ∷ pos 17788
    ∷ pos 16764
    ∷ pos 15996
    ∷ pos 15484
    ∷ pos 14972
    ∷ pos 14460
    ∷ pos 13948
    ∷ pos 13436
    ∷ pos 12924
    ∷ pos 12412
    ∷ pos 11900
    ∷ pos 11388
    ∷ pos 10876
    ∷ pos 10364
    ∷ pos 9852
    ∷ pos 9340
    ∷ pos 8828
    ∷ pos 8316
    ∷ pos 7932
    ∷ pos 7676
    ∷ pos 7420
    ∷ pos 7164
    ∷ pos 6908
    ∷ pos 6652
    ∷ pos 6396
    ∷ pos 6140
    ∷ pos 5884
    ∷ pos 5628
    ∷ pos 5372
    ∷ pos 5116
    ∷ pos 4860
    ∷ pos 4604
    ∷ pos 4348
    ∷ pos 4092
    ∷ pos 3900
    ∷ pos 3772
    ∷ pos 3644
    ∷ pos 3516
    ∷ pos 3388
    ∷ pos 3260
    ∷ pos 3132
    ∷ pos 3004
    ∷ pos 2876
    ∷ pos 2748
    ∷ pos 2620
    ∷ pos 2492
    ∷ pos 2364
    ∷ pos 2236
    ∷ pos 2108
    ∷ pos 1980
    ∷ pos 1884
    ∷ pos 1820
    ∷ pos 1756
    ∷ pos 1692
    ∷ pos 1628
    ∷ pos 1564
    ∷ pos 1500
    ∷ pos 1436
    ∷ pos 1372
    ∷ pos 1308
    ∷ pos 1244
    ∷ pos 1180
    ∷ pos 1116
    ∷ pos 1052
    ∷ pos 988
    ∷ pos 924
    ∷ pos 876
    ∷ pos 844
    ∷ pos 812
    ∷ pos 780
    ∷ pos 748
    ∷ pos 716
    ∷ pos 684
    ∷ pos 652
    ∷ pos 620
    ∷ pos 588
    ∷ pos 556
    ∷ pos 524
    ∷ pos 492
    ∷ pos 460
    ∷ pos 428
    ∷ pos 396
    ∷ pos 372
    ∷ pos 356
    ∷ pos 340
    ∷ pos 324
    ∷ pos 308
    ∷ pos 292
    ∷ pos 276
    ∷ pos 260
    ∷ pos 244
    ∷ pos 228
    ∷ pos 212
    ∷ pos 196
    ∷ pos 180
    ∷ pos 164
    ∷ pos 148
    ∷ pos 132
    ∷ pos 120
    ∷ pos 112
    ∷ pos 104
    ∷ pos 96
    ∷ pos 88
    ∷ pos 80
    ∷ pos 72
    ∷ pos 64
    ∷ pos 56
    ∷ pos 48
    ∷ pos 40
    ∷ pos 32
    ∷ pos 24
    ∷ pos 16
    ∷ pos 8
    ∷ pos 0
    ∷ []

unfoldable pub pcma_to_l16_lut : List ℤ
pcma_to_l16_lut =
    negsuc 5503
    ∷ negsuc 5247
    ∷ negsuc 6015
    ∷ negsuc 5759
    ∷ negsuc 4479
    ∷ negsuc 4223
    ∷ negsuc 4991
    ∷ negsuc 4735
    ∷ negsuc 7551
    ∷ negsuc 7295
    ∷ negsuc 8063
    ∷ negsuc 7807
    ∷ negsuc 6527
    ∷ negsuc 6271
    ∷ negsuc 7039
    ∷ negsuc 6783
    ∷ negsuc 2751
    ∷ negsuc 2623
    ∷ negsuc 3007
    ∷ negsuc 2879
    ∷ negsuc 2239
    ∷ negsuc 2111
    ∷ negsuc 2495
    ∷ negsuc 2367
    ∷ negsuc 3775
    ∷ negsuc 3647
    ∷ negsuc 4031
    ∷ negsuc 3903
    ∷ negsuc 3263
    ∷ negsuc 3135
    ∷ negsuc 3519
    ∷ negsuc 3391
    ∷ negsuc 22015
    ∷ negsuc 20991
    ∷ negsuc 24063
    ∷ negsuc 23039
    ∷ negsuc 17919
    ∷ negsuc 16895
    ∷ negsuc 19967
    ∷ negsuc 18943
    ∷ negsuc 30207
    ∷ negsuc 29183
    ∷ negsuc 32255
    ∷ negsuc 31231
    ∷ negsuc 26111
    ∷ negsuc 25087
    ∷ negsuc 28159
    ∷ negsuc 27135
    ∷ negsuc 11007
    ∷ negsuc 10495
    ∷ negsuc 12031
    ∷ negsuc 11519
    ∷ negsuc 8959
    ∷ negsuc 8447
    ∷ negsuc 9983
    ∷ negsuc 9471
    ∷ negsuc 15103
    ∷ negsuc 14591
    ∷ negsuc 16127
    ∷ negsuc 15615
    ∷ negsuc 13055
    ∷ negsuc 12543
    ∷ negsuc 14079
    ∷ negsuc 13567
    ∷ negsuc 343
    ∷ negsuc 327
    ∷ negsuc 375
    ∷ negsuc 359
    ∷ negsuc 279
    ∷ negsuc 263
    ∷ negsuc 311
    ∷ negsuc 295
    ∷ negsuc 471
    ∷ negsuc 455
    ∷ negsuc 503
    ∷ negsuc 487
    ∷ negsuc 407
    ∷ negsuc 391
    ∷ negsuc 439
    ∷ negsuc 423
    ∷ negsuc 87
    ∷ negsuc 71
    ∷ negsuc 119
    ∷ negsuc 103
    ∷ negsuc 23
    ∷ negsuc 7
    ∷ negsuc 55
    ∷ negsuc 39
    ∷ negsuc 215
    ∷ negsuc 199
    ∷ negsuc 247
    ∷ negsuc 231
    ∷ negsuc 151
    ∷ negsuc 135
    ∷ negsuc 183
    ∷ negsuc 167
    ∷ negsuc 1375
    ∷ negsuc 1311
    ∷ negsuc 1503
    ∷ negsuc 1439
    ∷ negsuc 1119
    ∷ negsuc 1055
    ∷ negsuc 1247
    ∷ negsuc 1183
    ∷ negsuc 1887
    ∷ negsuc 1823
    ∷ negsuc 2015
    ∷ negsuc 1951
    ∷ negsuc 1631
    ∷ negsuc 1567
    ∷ negsuc 1759
    ∷ negsuc 1695
    ∷ negsuc 687
    ∷ negsuc 655
    ∷ negsuc 751
    ∷ negsuc 719
    ∷ negsuc 559
    ∷ negsuc 527
    ∷ negsuc 623
    ∷ negsuc 591
    ∷ negsuc 943
    ∷ negsuc 911
    ∷ negsuc 1007
    ∷ negsuc 975
    ∷ negsuc 815
    ∷ negsuc 783
    ∷ negsuc 879
    ∷ negsuc 847
    ∷ pos 5504
    ∷ pos 5248
    ∷ pos 6016
    ∷ pos 5760
    ∷ pos 4480
    ∷ pos 4224
    ∷ pos 4992
    ∷ pos 4736
    ∷ pos 7552
    ∷ pos 7296
    ∷ pos 8064
    ∷ pos 7808
    ∷ pos 6528
    ∷ pos 6272
    ∷ pos 7040
    ∷ pos 6784
    ∷ pos 2752
    ∷ pos 2624
    ∷ pos 3008
    ∷ pos 2880
    ∷ pos 2240
    ∷ pos 2112
    ∷ pos 2496
    ∷ pos 2368
    ∷ pos 3776
    ∷ pos 3648
    ∷ pos 4032
    ∷ pos 3904
    ∷ pos 3264
    ∷ pos 3136
    ∷ pos 3520
    ∷ pos 3392
    ∷ pos 22016
    ∷ pos 20992
    ∷ pos 24064
    ∷ pos 23040
    ∷ pos 17920
    ∷ pos 16896
    ∷ pos 19968
    ∷ pos 18944
    ∷ pos 30208
    ∷ pos 29184
    ∷ pos 32256
    ∷ pos 31232
    ∷ pos 26112
    ∷ pos 25088
    ∷ pos 28160
    ∷ pos 27136
    ∷ pos 11008
    ∷ pos 10496
    ∷ pos 12032
    ∷ pos 11520
    ∷ pos 8960
    ∷ pos 8448
    ∷ pos 9984
    ∷ pos 9472
    ∷ pos 15104
    ∷ pos 14592
    ∷ pos 16128
    ∷ pos 15616
    ∷ pos 13056
    ∷ pos 12544
    ∷ pos 14080
    ∷ pos 13568
    ∷ pos 344
    ∷ pos 328
    ∷ pos 376
    ∷ pos 360
    ∷ pos 280
    ∷ pos 264
    ∷ pos 312
    ∷ pos 296
    ∷ pos 472
    ∷ pos 456
    ∷ pos 504
    ∷ pos 488
    ∷ pos 408
    ∷ pos 392
    ∷ pos 440
    ∷ pos 424
    ∷ pos 88
    ∷ pos 72
    ∷ pos 120
    ∷ pos 104
    ∷ pos 24
    ∷ pos 8
    ∷ pos 56
    ∷ pos 40
    ∷ pos 216
    ∷ pos 200
    ∷ pos 248
    ∷ pos 232
    ∷ pos 152
    ∷ pos 136
    ∷ pos 184
    ∷ pos 168
    ∷ pos 1376
    ∷ pos 1312
    ∷ pos 1504
    ∷ pos 1440
    ∷ pos 1120
    ∷ pos 1056
    ∷ pos 1248
    ∷ pos 1184
    ∷ pos 1888
    ∷ pos 1824
    ∷ pos 2016
    ∷ pos 1952
    ∷ pos 1632
    ∷ pos 1568
    ∷ pos 1760
    ∷ pos 1696
    ∷ pos 688
    ∷ pos 656
    ∷ pos 752
    ∷ pos 720
    ∷ pos 560
    ∷ pos 528
    ∷ pos 624
    ∷ pos 592
    ∷ pos 944
    ∷ pos 912
    ∷ pos 1008
    ∷ pos 976
    ∷ pos 816
    ∷ pos 784
    ∷ pos 880
    ∷ pos 848
    ∷ []

unfoldable pub pcma_to_l16_lut_32 : List ℤ
pcma_to_l16_lut_32 =
    negsuc 5503
    ∷ negsuc 5247
    ∷ negsuc 6015
    ∷ negsuc 5759
    ∷ negsuc 4479
    ∷ negsuc 4223
    ∷ negsuc 4991
    ∷ negsuc 4735
    ∷ negsuc 7551
    ∷ negsuc 7295
    ∷ negsuc 8063
    ∷ negsuc 7807
    ∷ negsuc 6527
    ∷ negsuc 6271
    ∷ negsuc 7039
    ∷ negsuc 6783
    ∷ negsuc 2751
    ∷ negsuc 2623
    ∷ negsuc 3007
    ∷ negsuc 2879
    ∷ negsuc 2239
    ∷ negsuc 2111
    ∷ negsuc 2495
    ∷ negsuc 2367
    ∷ negsuc 3775
    ∷ negsuc 3647
    ∷ negsuc 4031
    ∷ negsuc 3903
    ∷ negsuc 3263
    ∷ negsuc 3135
    ∷ negsuc 3519
    ∷ negsuc 3391
    ∷ negsuc 22015
    ∷ negsuc 20991
    ∷ negsuc 24063
    ∷ negsuc 23039
    ∷ negsuc 17919
    ∷ negsuc 16895
    ∷ negsuc 19967
    ∷ negsuc 18943
    ∷ negsuc 30207
    ∷ negsuc 29183
    ∷ negsuc 32255
    ∷ negsuc 31231
    ∷ negsuc 26111
    ∷ negsuc 25087
    ∷ negsuc 28159
    ∷ negsuc 27135
    ∷ negsuc 11007
    ∷ negsuc 10495
    ∷ negsuc 12031
    ∷ negsuc 11519
    ∷ negsuc 8959
    ∷ negsuc 8447
    ∷ negsuc 9983
    ∷ negsuc 9471
    ∷ negsuc 15103
    ∷ negsuc 14591
    ∷ negsuc 16127
    ∷ negsuc 15615
    ∷ negsuc 13055
    ∷ negsuc 12543
    ∷ negsuc 14079
    ∷ negsuc 13567
    ∷ negsuc 343
    ∷ negsuc 327
    ∷ negsuc 375
    ∷ negsuc 359
    ∷ negsuc 279
    ∷ negsuc 263
    ∷ negsuc 311
    ∷ negsuc 295
    ∷ negsuc 471
    ∷ negsuc 455
    ∷ negsuc 503
    ∷ negsuc 487
    ∷ negsuc 407
    ∷ negsuc 391
    ∷ negsuc 439
    ∷ negsuc 423
    ∷ negsuc 87
    ∷ negsuc 71
    ∷ negsuc 119
    ∷ negsuc 103
    ∷ negsuc 23
    ∷ negsuc 7
    ∷ negsuc 55
    ∷ negsuc 39
    ∷ negsuc 215
    ∷ negsuc 199
    ∷ negsuc 247
    ∷ negsuc 231
    ∷ negsuc 151
    ∷ negsuc 135
    ∷ negsuc 183
    ∷ negsuc 167
    ∷ negsuc 1375
    ∷ negsuc 1311
    ∷ negsuc 1503
    ∷ negsuc 1439
    ∷ negsuc 1119
    ∷ negsuc 1055
    ∷ negsuc 1247
    ∷ negsuc 1183
    ∷ negsuc 1887
    ∷ negsuc 1823
    ∷ negsuc 2015
    ∷ negsuc 1951
    ∷ negsuc 1631
    ∷ negsuc 1567
    ∷ negsuc 1759
    ∷ negsuc 1695
    ∷ negsuc 687
    ∷ negsuc 655
    ∷ negsuc 751
    ∷ negsuc 719
    ∷ negsuc 559
    ∷ negsuc 527
    ∷ negsuc 623
    ∷ negsuc 591
    ∷ negsuc 943
    ∷ negsuc 911
    ∷ negsuc 1007
    ∷ negsuc 975
    ∷ negsuc 815
    ∷ negsuc 783
    ∷ negsuc 879
    ∷ negsuc 847
    ∷ pos 5504
    ∷ pos 5248
    ∷ pos 6016
    ∷ pos 5760
    ∷ pos 4480
    ∷ pos 4224
    ∷ pos 4992
    ∷ pos 4736
    ∷ pos 7552
    ∷ pos 7296
    ∷ pos 8064
    ∷ pos 7808
    ∷ pos 6528
    ∷ pos 6272
    ∷ pos 7040
    ∷ pos 6784
    ∷ pos 2752
    ∷ pos 2624
    ∷ pos 3008
    ∷ pos 2880
    ∷ pos 2240
    ∷ pos 2112
    ∷ pos 2496
    ∷ pos 2368
    ∷ pos 3776
    ∷ pos 3648
    ∷ pos 4032
    ∷ pos 3904
    ∷ pos 3264
    ∷ pos 3136
    ∷ pos 3520
    ∷ pos 3392
    ∷ pos 22016
    ∷ pos 20992
    ∷ pos 24064
    ∷ pos 23040
    ∷ pos 17920
    ∷ pos 16896
    ∷ pos 19968
    ∷ pos 18944
    ∷ pos 30208
    ∷ pos 29184
    ∷ pos 32256
    ∷ pos 31232
    ∷ pos 26112
    ∷ pos 25088
    ∷ pos 28160
    ∷ pos 27136
    ∷ pos 11008
    ∷ pos 10496
    ∷ pos 12032
    ∷ pos 11520
    ∷ pos 8960
    ∷ pos 8448
    ∷ pos 9984
    ∷ pos 9472
    ∷ pos 15104
    ∷ pos 14592
    ∷ pos 16128
    ∷ pos 15616
    ∷ pos 13056
    ∷ pos 12544
    ∷ pos 14080
    ∷ pos 13568
    ∷ pos 344
    ∷ pos 328
    ∷ pos 376
    ∷ pos 360
    ∷ pos 280
    ∷ pos 264
    ∷ pos 312
    ∷ pos 296
    ∷ pos 472
    ∷ pos 456
    ∷ pos 504
    ∷ pos 488
    ∷ pos 408
    ∷ pos 392
    ∷ pos 440
    ∷ pos 424
    ∷ pos 88
    ∷ pos 72
    ∷ pos 120
    ∷ pos 104
    ∷ pos 24
    ∷ pos 8
    ∷ pos 56
    ∷ pos 40
    ∷ pos 216
    ∷ pos 200
    ∷ pos 248
    ∷ pos 232
    ∷ pos 152
    ∷ pos 136
    ∷ pos 184
    ∷ pos 168
    ∷ pos 1376
    ∷ pos 1312
    ∷ pos 1504
    ∷ pos 1440
    ∷ pos 1120
    ∷ pos 1056
    ∷ pos 1248
    ∷ pos 1184
    ∷ pos 1888
    ∷ pos 1824
    ∷ pos 2016
    ∷ pos 1952
    ∷ pos 1632
    ∷ pos 1568
    ∷ pos 1760
    ∷ pos 1696
    ∷ pos 688
    ∷ pos 656
    ∷ pos 752
    ∷ pos 720
    ∷ pos 560
    ∷ pos 528
    ∷ pos 624
    ∷ pos 592
    ∷ pos 944
    ∷ pos 912
    ∷ pos 1008
    ∷ pos 976
    ∷ pos 816
    ∷ pos 784
    ∷ pos 880
    ∷ pos 848
    ∷ []
